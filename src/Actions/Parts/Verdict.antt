-- ===== src/Actions/Parts/Verdict.antt =====
-- The report at the end of an action of agent/internal/actions/actions.go.
use fos_next.Prelude.{
  ℕ, ◌+◌, ◌≤◌, true, Bytes, codes, Result, ok, err, ◌≡◌, refl, ◌↔◌, ◌⊎◌, inl, inr,
}
use fos_next.Wire.{HandshakeResponse, CompleteRequest, complete}
use fos_next.World.{sleep, Event, call, http, History, Env, Act, match_result, ◌>>=◌}
use fos_next.World.Adds.{Emits}
use fos_next.Api.{Client, post_request, send_complete, no_out}
use fos_next.Api.Auth.{post-Adds}
use fos_next.Api.Retry.Count.{sent, post_bounds}
use fos_next.Actions.Parts.{success_of, failure_of, report_fail, report}

-- The events of a report: its one request, and the pauses between its tries.
pub data VerdictEvent (client : Client) (req : CompleteRequest) : Event → Type 0 where
  paused : (d : ℕ) → VerdictEvent client req (call (sleep d))
  verdict :
      VerdictEvent client req (http (post_request client (codes "/complete") (complete req) true))

-- An action whose steps end in `done`, and which ends in `final`, reports what happened: behind the
-- steps only `request` is sent, at least once and at most five times; it claims success exactly if
-- the steps returned no error; an error of the steps is its message, and is not returned.
pub record Reported (client : Client) (resp : HandshakeResponse)
    (done final : Result (Unit {0}) × History) : Type 0 where
  pub request : CompleteRequest
  pub of_task : request.task_id ≡ resp.task_id
  pub behind : Emits (VerdictEvent client request) done.1 final.1
  pub at_least : sent done.1 + 1 ≤ sent final.1
  pub at_most : sent final.1 ≤ sent done.1 + 5
  pub honest : (request.success ≡ true) ↔ (done.0 ≡ ok tt)
  pub reason : (e : Bytes) → done.0 ≡ err e → request.message ≡ e
  pub quiet : (done.0 ≡ ok tt) ⊎ (final.0 ≡ ok tt)

module _ (env : Env) (client : Client) (req : CompleteRequest) (g : History) where
  send_complete-VerdictEvent : Emits (VerdictEvent client req) g (send_complete env client req g).1
  unfolding send_complete
  send_complete-VerdictEvent = (post-Adds env client _ _ _ no_out verdict paused).at g

  send_complete_bounds :
      (sent g + 1 ≤ sent (send_complete env client req g).1)
      × (sent (send_complete env client req g).1 ≤ sent g + 5)
  unfolding send_complete
  send_complete_bounds = post_bounds env client _ _ _ no_out g

-- what follows the steps
abbrev finish : Env → Client → HandshakeResponse → Result (Unit {0}) → Act (Unit {0})
finish env client resp r =
    match_result r (λ _. send_complete env client (success_of resp)) (report_fail env client resp)

finish-Reported :
    (env : Env) (client : Client) (resp : HandshakeResponse) (r : Result (Unit {0})) (g : History)
    → Reported client resp (r, g) (finish env client resp r g)
unfolding match_result report_fail ◌>>=◌
finish-Reported env client resp (ok u) g =
    let bounds = send_complete_bounds env client (success_of resp) g in
    record {
      request = success_of resp;
      of_task = refl;
      behind = send_complete-VerdictEvent env client (success_of resp) g;
      at_least = bounds.0;
      at_most = bounds.1;
      honest = ((λ _. refl), (λ _. refl));
      reason = λ x p. absurd (cc p);
      quiet = inl refl;
    }
finish-Reported env client resp (err e) g =
    let bounds = send_complete_bounds env client (failure_of resp e) g in
    record {
      request = failure_of resp e;
      of_task = refl;
      behind = send_complete-VerdictEvent env client (failure_of resp e) g;
      at_least = bounds.0;
      at_most = bounds.1;
      honest = ((λ p. absurd (cc p)), (λ p. absurd (cc p)));
      reason = λ x p. cc p;
      quiet = inr refl;
    }

pub report-Reported :
    (env : Env) (client : Client) (resp : HandshakeResponse) (steps : Act (Unit {0})) (h : History)
    → Reported client resp (steps h) (report env client resp steps h)
unfolding report ◌>>=◌
report-Reported env client resp steps h = finish-Reported env client resp (steps h).0 (steps h).1
