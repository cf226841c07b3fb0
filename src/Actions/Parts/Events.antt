-- ===== src/Actions/Parts/Events.antt =====
-- The events of an action, and what the shared parts of agent/internal/actions add to the history.
use fos_next.Prelude.{ℤ, pos, true, Bytes, codes}
use fos_next.Wire.{HandshakeResponse, ProgressRequest, CompleteRequest, progress, complete}
use fos_next.World.{Syscall, Event, call, http, Env, Act}
use fos_next.World.Adds.{Adds, adds_rules}
use fos_next.Api.{Client, post_request, report_progress, send_complete}
use fos_next.Api.Auth.{post-Adds}
use fos_next.Actions.Parts.{failing, progress_fn, detect_filesystem, read_partition_uuid, make_swap}

module _ {Q : Event → Type 0} (env : Env) (local : (c : Syscall) → Q (call c)) where
  pub failing-Adds :
      {A : Type 0} (context : Bytes) (m : Act A) → Adds Q m → Adds Q (failing context m)
  unfolding failing
  failing-Adds context m k = search adds_rules

  pub detect_filesystem-Adds : (dev : Bytes) → Adds Q (detect_filesystem env dev)
  unfolding detect_filesystem
  detect_filesystem-Adds dev = search adds_rules

  pub read_partition_uuid-Adds : (dev : Bytes) → Adds Q (read_partition_uuid env dev)
  unfolding read_partition_uuid
  read_partition_uuid-Adds dev = search adds_rules

  pub make_swap-Adds : (dev uuid : Bytes) → Adds Q (make_swap env dev uuid)
  unfolding make_swap
  make_swap-Adds dev uuid = search adds_rules

  module _ (client : Client) (resp : HandshakeResponse) where
    report_progress-Adds :
        (req : ProgressRequest)
        → Q (http (post_request client (codes "/progress") (progress req) true))
        → Adds Q (report_progress env client req)
    unfolding report_progress
    report_progress-Adds req q = post-Adds env client _ _ _ _ q (λ d. local _)

    -- a progress report carries no transferred bytes
    pub progress_fn-Adds :
        ((pct bpm : ℤ)
          → Q (
              http (
                post_request client
                  (codes "/progress")
                  (progress (record {
                    task_id = resp.task_id;
                    percent = pct;
                    bits_per_minute = bpm;
                    bytes_transferred = pos 0;
                  }))
                  true)))
        → (pct bpm : ℤ) → Adds Q (progress_fn env client resp pct bpm)
    unfolding progress_fn
    progress_fn-Adds q pct bpm = search (adds_rules, report_progress-Adds)

    pub send_complete-Adds :
        (req : CompleteRequest)
        → Q (http (post_request client (codes "/complete") (complete req) true))
        → Adds Q (send_complete env client req)
    unfolding send_complete
    send_complete-Adds req q = post-Adds env client _ _ _ _ q (λ d. local _)
