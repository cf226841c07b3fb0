-- ===== src/Actions/Ending.antt =====
-- How `Wipe` of agent/internal/actions/actions.go ends.
use fos_next.Prelude.{
  true, [], ◌∷◌, none, some, ◌++◌, Bytes, codes, ok, err, ◌≡◌, refl, ◌⊎◌, inl, inr, ◌↔◌,
  Option-cases, Result-cases,
}
use fos_next.Wire.{HandshakeResponse}
use fos_next.World.{
  Syscall, exec, Event, call, History, Env, Act, pure, fail, attempt, match_result, match_option,
  ◌>>=◌, sys, combined_output, output, checked, wrapped, exec_with,
}
use fos_next.World.Adds.{Adds, Emits, adds_rules}
use fos_next.Api.{Client}
use fos_next.Partition.Calls.{wipe-Adds}
use fos_next.Disk.Calls.{primary-Adds}
use fos_next.Disk
use fos_next.Partition
use fos_next.Strconv.{itoa, digits}
use fos_next.Actions.{wipe_steps, wipe}
use fos_next.Actions.Parts.{failing}
use fos_next.Actions.Parts.Events.{failing-Adds}
use fos_next.Actions.Parts.Verdict.{Reported, report-Reported}

-- The events of an action that stays on the machine.
pub data LocalEvent : Event → Type 0 where
  local : (c : Syscall) → LocalEvent (call c)

pub wipe_steps-LocalEvent : (env : Env) → Adds LocalEvent (wipe_steps env)
unfolding wipe_steps
wipe_steps-LocalEvent env = search (adds_rules, failing-Adds, primary-Adds, wipe-Adds, local)

-- how `Wipe` runs shred
abbrev pub shred_call : Bytes → Syscall
shred_call disk = exec (record {
  name = codes "shred";
  args = codes "-v" ∷ codes "-n" ∷ codes "1" ∷ disk ∷ [];
  stdin = [];
})

-- A run from `h` to `final` has had shred overwrite the disk that `Primary` chose, without an error,
-- behind all that `Primary` did, and nothing else.
pub record Shredded (env : Env) (h final : History) : Type 0 where
  pub disk : Bytes
  pub chosen : (Disk.primary env h).0 ≡ ok disk
  pub asked : final ≡ call (shred_call disk) ∷ (Disk.primary env h).1
  pub shreds : (env.answer (Disk.primary env h).1 (shred_call disk)).fault ≡ none

module _ (env : Env) where
  -- the step behind the choice of the disk
  abbrev overwrite : Bytes → Act (Unit {0})
  overwrite disk = failing (codes "wipe failed: ") (Partition.wipe env disk 1)

  -- That step ends as shred does.
  overwrite-cases :
      (disk : Bytes) (g : History)
      → (((env.answer g (shred_call disk)).fault ≡ none)
          × (overwrite disk g ≡ (ok tt, call (shred_call disk) ∷ g)))
        ⊎ ((e x : Bytes) × ((env.answer g (shred_call disk)).fault ≡ some e)
            × ((overwrite disk g).0 ≡ err x))
  unfolding Partition.wipe failing wrapped output checked combined_output exec_with sys attempt
      match_result match_option pure fail ◌>>=◌ itoa digits
  overwrite-cases disk g = elim (Option-cases (env.answer g (shred_call disk)).fault) [
    | inl n ↦ inl (n, rw n refl)
    | inr (e, s) ↦ inr (e, codes "wipe failed: " ++ (codes "shred: " ++ e), s, rw s refl)
  ]

  wipe_steps-Shredded :
      (h : History) → ((wipe_steps env h).0 ≡ ok tt) ↔ Shredded env h (wipe_steps env h).1
  unfolding wipe_steps failing wrapped attempt match_result pure fail ◌>>=◌
  wipe_steps-Shredded h = elim (Result-cases (Disk.primary env h).0) [
    | inl (disk, p) ↦ elim (overwrite-cases disk (Disk.primary env h).1) [
      | inl (n, w) ↦
          rw p
            (rw w ((λ _. record { disk = disk; chosen = p; asked = refl; shreds = n }), λ _. refl))
      | inr (e, x, s, w) ↦
          ((λ q. absurd (cc (rw w at (rw p at q)))), λ d. absurd (cc (d.chosen, p, d.shreds, s)))
    ]
    | inr (e, p) ↦ ((λ q. absurd (cc (rw p at q))), λ d. absurd (cc (d.chosen, p)))
  ]

-- A run of `Wipe` from `h` has asked the server for nothing in front of its report; the report tells
-- how the steps ended; and it claims success exactly if the disk has been overwritten.
pub record WipeReported (env : Env) (client : Client) (resp : HandshakeResponse) (h : History)
    : Type 0 where
  pub still : Emits LocalEvent h (wipe_steps env h).1
  pub reported : Reported client resp (wipe_steps env h) (wipe env client resp h)
  pub earned : (reported.request.success ≡ true) ↔ Shredded env h (wipe_steps env h).1

-- `Wipe` asks the server for nothing while it works, and ends with one verdict for its task, sent at
-- least once and at most five times, and with no other request. It claims success exactly if `Primary`
-- returned a disk and `shred -v -n 1` on that disk ended without an error; otherwise the message is
-- the error, which is not returned.
pub wipe-WipeReported :
    (env : Env) (client : Client) (resp : HandshakeResponse) (h : History)
    → WipeReported env client resp h
unfolding wipe
wipe-WipeReported env client resp h =
    let r = report-Reported env client resp (wipe_steps env) h in
    let s = wipe_steps-Shredded env h in
    record {
      still = (wipe_steps-LocalEvent env).at h;
      reported = r;
      earned = ((λ c. s.0 (r.honest.0 c)), λ d. r.honest.1 (s.1 d));
    }
