-- ===== src/Api/Logs/Drain.antt =====
-- When the log handler of agent/internal/api/loghandler.go sends: not before `SetClient`, and then
-- all that it holds, a batch for each tick.
use fos_next.Prelude.{
  ℕ, zero, suc, ◌-◌, ◌*◌, ◌≤◌, Bool, true, false, List, [], ◌∷◌, ◌++◌, none, some, length, ◌≡◌,
  refl, sym, ◌∙◌, arith, length-drop, append_assoc, append-nil, All,
}
use fos_next.Wire.{LogEntry}
use fos_next.Api.{Client}
use fos_next.Api.Logs.{
  new_remote_handler, handle, batch_size, flush, flush_with, remote_drain_batch,
}
use fos_next.Api.Logs.Runs.{
  Op, record_logged, ticked, connected, Run, step, run, start, batch_entries, flush-moves,
}

abbrev pub connects : Op → Bool
connects (connected c t) = true
connects (record_logged e) = false
connects ticked = false

step_silent :
    (op : Op) (r : Run)
    → connects op ≡ false
    → r.handler.client ≡ none
    → ((step op r).sent ≡ r.sent) × ((step op r).handler.client ≡ none)
unfolding step flush flush_with handle batch_entries
step_silent (record_logged e) r u n = (refl, n)
step_silent ticked r u n = rw (n, flush_with) (append-nil r.sent, refl)
step_silent (connected c t) r u n = absurd (cc u)

run_silent_from :
    (ops : List Op) (r : Run)
    → All (λ op. connects op ≡ false) ops
    → r.handler.client ≡ none
    → (run ops r).sent ≡ r.sent
unfolding run
run_silent_from [] r u n = refl
run_silent_from (op ∷ ops) r (u, us) n =
    let (same, still) = step_silent op r u n in run_silent_from ops (step op r) us still ∙ same

-- Before `SetClient` nothing is sent, whatever is logged and however often the handler is flushed.
run_silent : (ops : List Op) → All (λ op. connects op ≡ false) ops → (run ops start).sent ≡ []
run_silent ops u = run_silent_from ops start u (unfold new_remote_handler in refl)

-- that many ticks
unfoldable pub ticks : ℕ → List Op
ticks zero = []
ticks (suc n) = ticked ∷ ticks n

tick_shrinks :
    (r : Run) (c : Client)
    → r.handler.client ≡ some c
    → ((step ticked r).handler.client ≡ some c)
      × (length (step ticked r).handler.buf ≡ length r.handler.buf - remote_drain_batch)
unfolding step flush flush_with batch_size
tick_shrinks r c e = ground (arith, length-drop (batch_size (length r.handler.buf)) r.handler.buf)

tick-sends :
    (r : Run) → (step ticked r).sent ++ (step ticked r).handler.buf ≡ r.sent ++ r.handler.buf
unfolding step
tick-sends r = rw (append_assoc, flush-moves)

nil_of_length : (l : List LogEntry) → length l ≤ 0 → l ≡ []
nil_of_length [] h = refl
nil_of_length (x ∷ xs) h = absurd (omega arith)

-- Where nothing else is logged, a connected handler has sent its whole buffer, in order, after one
-- tick for each 100 entries or part of it.
pub run-ticks :
    (n : ℕ) (r : Run) (c : Client)
    → r.handler.client ≡ some c
    → length r.handler.buf ≤ n * 100
    → ((run (ticks n) r).handler.buf ≡ []) × ((run (ticks n) r).sent ≡ r.sent ++ r.handler.buf)
unfolding run ticks
run-ticks zero r c e h =
    let n = nil_of_length r.handler.buf h in (n, rw n (sym (append-nil r.sent)))
run-ticks (suc n) r c e h =
    let (connected', shorter) = tick_shrinks r c e in
    let (drained, sent) = run-ticks n (step ticked r) c connected' (omega (arith, shorter)) in
    (drained, sent ∙ tick-sends r)
