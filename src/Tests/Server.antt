-- ===== src/Tests/Server.antt =====
-- Runs of the client and of the log handler of agent/internal/api.
use fos_next.Prelude.{true, List, [], ◌∷◌, none, some, Bytes, codes, err, ◌≡◌, refl}
use fos_next.Wire.{Payload, complete, LogEntry}
use fos_next.World.{
  replied, Env, pure, fail, attempt, lift, ask, branch, match_result, match_option, ◌>>=◌, sys,
  send,
}
use fos_next.Api.{post_response, no_out, do_post, post_loop, post, is_spent, wait}
use fos_next.Api.Retry.{retry, post-retry}
use fos_next.Api.Retry.Count.{sent, post_persists}
use fos_next.Api.Logs.Runs.{Op, record_logged, ticked, connected, Run, run, start, Inv, run-Inv}
use fos_next.Tests.{demo_env, demo_client}

abbrev demo_body : Payload
demo_body = complete (record { task_id = codes "7"; success = true; message = [] })

-- the world, with a server that refuses each request
abbrev refusing_env : Env
refusing_env = record demo_env {
  respond =
      λ h r. replied 500 (codes "500 Internal Server Error") (record { out = []; fault = none });
}

abbrev complete_path : Bytes
complete_path = codes "/complete"

post-retry_example :
    post demo_env demo_client complete_path demo_body true no_out
    ≡ retry demo_env
        (do_post demo_env demo_client complete_path demo_body true no_out)
        (2000 ∷ 4000 ∷ 8000 ∷ 16000 ∷ [])
post-retry_example = post-retry demo_env demo_client complete_path demo_body true no_out

refused :
    (post refusing_env demo_client complete_path demo_body true no_out []).0
    ≡ err (codes "POST /complete: server returned 500 Internal Server Error")
unfolding post post_loop do_post send lift post_response attempt match_result match_option pure fail
    ◌>>=◌ branch is_spent wait ask sys
refused = refl

post_persists_example :
    sent (post refusing_env demo_client complete_path demo_body true no_out []).1 ≡ 5
post_persists_example =
    post_persists refusing_env demo_client complete_path demo_body true no_out (λ g. refl) []
      (codes "POST /complete: server returned 500 Internal Server Error") refused

abbrev demo_entry : LogEntry
demo_entry = record { time = []; level = codes "INFO"; msg = codes "booted"; attrs = [] }

abbrev demo_ops : List Op
demo_ops =
    record_logged demo_entry
    ∷ connected demo_client (codes "7")
    ∷ record_logged demo_entry
    ∷ ticked
    ∷ []

run-Inv_example : Inv (demo_entry ∷ demo_entry ∷ []) (run demo_ops start)
run-Inv_example = run-Inv demo_ops

abbrev demo_run : Run
demo_run = record {
  handler = record {
    buf = demo_entry ∷ demo_entry ∷ [];
    client = some demo_client;
    task_id = codes "7";
  };
  sent = [];
  dropped = 0;
}
