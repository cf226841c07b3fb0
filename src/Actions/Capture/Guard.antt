-- ===== src/Actions/Capture/Guard.antt =====
-- The Bitlocker guard of `Capture` of agent/internal/actions/actions.go.
use fos_next.Prelude.{
  ℕ, ◌+◌, ◌<◌, Bool, true, false, Bytes, codes, ok, ◌≡◌, ◌⊎◌, inl, inr, Bool-cases,
}
use fos_next.Strings.{equal}
use fos_next.Wire.{HandshakeResponse}
use fos_next.World.{History, Env, fail, branch}
use fos_next.World.Adds.{Emits}
use fos_next.World.Ran.{Any}
use fos_next.World.Gives.{bind-eq-ok}
use fos_next.Api.{Client}
use fos_next.Disk
use fos_next.Disk.{partition_device}
use fos_next.Disk.Numbers.{Settled}
use fos_next.Imaging.{is_bitlocker_encrypted}
use fos_next.Actions.Parts.{detect_filesystem}
use fos_next.Actions.Capture.{refuse_bitlocker, capture_part, capture_steps}
use fos_next.Actions.Capture.Rounds.{Captured, capture_steps-Captured}

-- The filesystem of a device was looked up behind `start`, and for NTFS `IsBitlockerEncrypted` was asked
-- right behind that and said no.
pub record Guarded (env : Env) (dev : Bytes) (start : History) : Type 0 where
  pub from : History
  pub since : Emits Any start from
  pub fs : Bytes
  pub detected : (detect_filesystem env dev from).0 ≡ ok fs
  pub allowed :
      (equal fs (codes "ntfs") ≡ false)
      ⊎ ((is_bitlocker_encrypted env dev (detect_filesystem env dev from).1).0 ≡ ok false)

module _ (env : Env) (client : Client) (resp : HandshakeResponse) where
  refuse_bitlocker-eq-ok :
      (n : ℕ) (dev fs : Bytes) (h : History)
      → (refuse_bitlocker env client resp n dev fs h).0 ≡ ok tt
      → (equal fs (codes "ntfs") ≡ false) ⊎ ((is_bitlocker_encrypted env dev h).0 ≡ ok false)
  unfolding refuse_bitlocker branch fail
  refuse_bitlocker-eq-ok n dev fs h e = elim (Bool-cases (equal fs (codes "ntfs"))) [
    | inr o ↦ inl o
    | inl y ↦
        let (encrypted, q, w) = bind-eq-ok (is_bitlocker_encrypted env dev) _ h (rw y at e) in
        elim (Bool-cases encrypted) [
          | inl t ↦ absurd (cc (rw t at (rw w at (rw y at e))))
          | inr f ↦ inr (rw f at q)
        ]
  ]

  Captured-Guarded :
      {n : ℕ} {dev : Bytes} {start final : History}
      → Captured env client resp n dev start final
      → Guarded env dev start
  unfolding capture_part
  Captured-Guarded {n} {dev} c =
      let (fs, q, w) = bind-eq-ok (detect_filesystem env dev) _ c.from c.no_error in
      let (_, q1, _) =
        bind-eq-ok (refuse_bitlocker env client resp n dev fs) _ _ (rw w at c.no_error) in
      record {
        from = c.from;
        since = c.since;
        fs = fs;
        detected = q;
        allowed = refuse_bitlocker-eq-ok n dev fs _ q1;
      }

  -- If the steps of `Capture` return no error and whether a partition of the chosen disk exists does
  -- not change meanwhile, then for each existing partition among the first 128 they looked its
  -- filesystem up, and if that is NTFS then `IsBitlockerEncrypted` was asked right behind that and
  -- said no.
  pub capture_steps-Guarded :
      (h : History) (disk : Bytes) (exists : ℕ → Bool)
      → (capture_steps env client resp h).0 ≡ ok tt
      → (Disk.primary env h).0 ≡ ok disk
      → Settled env disk exists
      → (d : ℕ) → d < 128
      → exists (1 + d) ≡ true
      → Guarded env (partition_device disk (1 + d)) h
  capture_steps-Guarded h disk exists e chosen settled d lt there =
      Captured-Guarded
        (capture_steps-Captured env client resp h disk exists e chosen settled d lt there)
