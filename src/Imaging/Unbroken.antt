-- ===== src/Imaging/Unbroken.antt =====
-- What a `Restore` of agent/internal/imaging/imaging.go that returns no error has seen.
use fos_next.Prelude.{
  ℕ, ℤ, Bool, true, false, Option, none, some, Bytes, codes, ◌++◌, ◌∷◌, ok, ◌≡◌, refl, ◌⊎◌, inl,
  inr, ◌∙◌, ap,
}
use fos_next.World.{
  Command, start, wait_exit, remove, Reply, call, History, Env, ask, pure, sys, try, wrapped,
}
use fos_next.World.Adds.{Emits, Emits-trans, Adds, adds_rules}
use fos_next.World.Ran.{Any}
use fos_next.World.Ran.{anything}
use fos_next.Imaging.Calls.{poll_rounds-Adds}
use fos_next.World.Gives.{bind-eq-ok, ok-injective, match_option-eq-ok}
use fos_next.Imaging.Status.{ProgressFunc, status_file, read_status, poll_rounds}
use fos_next.Imaging.{partclone, restore_command, wait_error, restore}

wait_error-none :
    (env : Env) (f : Option Bytes) (read_all : Bool) (broken : Option Bytes)
    → wait_error env f read_all broken ≡ none
    → (f ≡ none) × ((read_all ≡ false) ⊎ (broken ≡ none))
unfolding wait_error
wait_error-none env (some e) b x p = absurd (cc p)
wait_error-none env none true broken p = (refl, inr p)
wait_error-none env none false broken p = (refl, inl refl)

module _ (env : Env) (progress : ProgressFunc) where
  -- the history behind the start of a run of partclone and that many rounds of its status poll
  abbrev pub polled : Command → History → ℕ → History
  polled command h rounds =
      let g0 = (sys env (remove status_file) h).1 in
      let g1 = (wrapped (codes "start partclone: ") (try env (start command)) g0).1 in
      (poll_rounds env rounds progress (ask env.ticks g1).1).1

  pub partclone-eq-ok :
      (command : Command) (h : History) (r : Reply)
      → (partclone env command progress h).0 ≡ ok r
      → (g : History) × ((rounds : ℕ) × (g ≡ polled command h rounds))
        × (env.answer g (wait_exit command) ≡ r)
        × ((partclone env command progress h).1
            ≡ (read_status env progress (call (wait_exit command) ∷ g)).1)
  unfolding partclone pure sys
  partclone-eq-ok command h r e =
      let (_, _, w) = bind-eq-ok (sys env (remove status_file)) _ h e in
      let e1 = rw w at e in
      let (_, _, w1) =
        bind-eq-ok (wrapped (codes "start partclone: ") (try env (start command))) _ _ e1 in
      let e2 = rw w1 at e1 in
      let (rounds, _, w2) = bind-eq-ok (ask env.ticks) _ _ e2 in
      let e3 = rw w2 at e2 in
      let (_, _, w3) = bind-eq-ok (poll_rounds env rounds progress) _ _ e3 in
      let e4 = rw w3 at e3 in
      let g0 = (sys env (remove status_file) h).1 in
      let g1 = (wrapped (codes "start partclone: ") (try env (start command)) g0).1 in
      let g2 = (ask env.ticks g1).1 in
      let g = (poll_rounds env rounds progress g2).1 in
      let (x, q, w4) = bind-eq-ok (sys env (wait_exit command)) _ g e4 in
      let e5 = rw w4 at e4 in
      let (_, _, w5) = bind-eq-ok (read_status env progress) _ _ e5 in
      (
        g,
        (rounds, refl),
        ok-injective q ∙ ok-injective (rw w5 at e5),
        rw (w, w1, w2, w3, w4, w5) refl,
      )

  -- A run from `h` to `final` has ended the subprocess without an error, and read its status once
  -- more; if the subprocess had read all of its input then, the source did not break off.
  pub record Completed (device : Bytes) (src : Reply) (final : History) : Type 0 where
    pub at : History
    pub exited : (env.answer at (wait_exit (restore_command env device src.out))).fault ≡ none
    pub last :
        final
        ≡ (read_status env progress (call (wait_exit (restore_command env device src.out)) ∷ at)).1
    pub unbroken : (env.drained final ≡ false) ⊎ (src.fault ≡ none)

  -- where the run of partclone was started
  pub restore-eq-ok :
      (device : Bytes) (src : Reply) (h : History)
      → (restore env device src progress h).0 ≡ ok tt
      → (c : Completed device src (restore env device src progress h).1) × (rounds : ℕ) × (c.at
          ≡ polled (restore_command env device src.out) h rounds)
  unfolding restore ask
  restore-eq-ok device src h e =
      let command = restore_command env device src.out in
      let (r, q, w) = bind-eq-ok (partclone env command progress) _ h e in
      let e1 = rw w at e in
      let g = (partclone env command progress h).1 in
      let (read_all, p, w1) = bind-eq-ok (ask env.drained) _ g e1 in
      let (o, same) =
        match_option-eq-ok (wait_error env r.fault read_all src.fault)
          (λ e. codes "partclone.restore: " ++ e) g (rw w1 at e1) in
      let (before, started, answered, final) = partclone-eq-ok command h r q in
      let (clean, whole) = wait_error-none env r.fault read_all src.fault o in
      rw (w, w1, same)
        (
          record {
            at = before;
            exited = ap (λ x. Reply.fault x) answered ∙ clean;
            last = final;
            unbroken = rw (ok-injective p) whole;
          },
          started.0,
          started.1,
        )

  -- If `Restore` returns no error, partclone exited without one; and either partclone had not read
  -- all of its input, or the body of the download did not break off.
  pub restore-Completed :
      (device : Bytes) (src : Reply) (h : History)
      → (restore env device src progress h).0 ≡ ok tt
      → Completed device src (restore env device src progress h).1
  restore-Completed device src h e = (restore-eq-ok device src h e).0

  module _ (reports : (pct bpm : ℤ) → Adds Any (progress pct bpm)) where
    pub polled-later :
        (command : Command) (h : History) (rounds : ℕ) → Emits Any h (polled command h rounds)
    polled-later command h rounds =
        let removing = sys env (remove status_file) in
        let starting = wrapped (codes "start partclone: ") (try env (start command)) in
        let g0 = (removing h).1 in
        let g1 = (starting g0).1 in
        let g2 = (ask env.ticks g1).1 in
        Emits-trans (anything {Q = Any} removing h (search (adds_rules))) (
          Emits-trans (anything {Q = Any} starting g0 (search (adds_rules))) (
            Emits-trans (anything {Q = Any} (ask env.ticks) g1 (search (adds_rules))) (
              anything {Q = Any} (poll_rounds env rounds progress) g2
                (poll_rounds-Adds env (λ c. tt) progress reports rounds))))
