-- ===== src/Actions/Capture/Calls.antt =====
-- The events of `Capture` of agent/internal/actions/actions.go, for any set of events that has the calls
-- of the system, its progress reports and the uploads that it makes.
use fos_next.Prelude.{ℕ, ◌+◌, ◌≤◌, ◌<◌, ℤ, List, [], ◌∷◌, Bytes, length, arith}
use fos_next.Wire.{HandshakeResponse}
use fos_next.World.{Syscall, Event, call, http, Body, Env}
use fos_next.World.Adds.{Adds, Adds-bind, adds_rules}
use fos_next.Api.{Client, upload_request}
use fos_next.Api.Auth.{upload_part-Adds}
use fos_next.Imaging.Calls.{clone-Adds, shrink-Adds, clean_ntfs-Adds, is_bitlocker_encrypted-Adds}
use fos_next.Actions.Parts.{progress_fn}
use fos_next.Actions.Parts.Events.{failing-Adds, detect_filesystem-Adds, read_partition_uuid-Adds}
use fos_next.Actions.Capture.{
  prepare, upload_sentinel, upload_image, refuse_bitlocker, capture_part, capture_parts,
}

module _ {Q : Event → Type 0} (env : Env) (client : Client) (resp : HandshakeResponse)
    (local : (c : Syscall) → Q (call c))
    (reports : (pct bpm : ℤ) → Adds Q (progress_fn env client resp pct bpm)) where
  -- the uploads of one part
  abbrev pub Uploads : ℕ → Type 0
  Uploads part = (body : Body) → Q (http (upload_request client resp.image_id part body))

  pub prepare-Adds : (dev fs : Bytes) → Adds Q (prepare env client resp dev fs)
  unfolding prepare
  prepare-Adds dev fs = search (adds_rules, clean_ntfs-Adds, shrink-Adds, local) depth 8

  upload_sentinel-Adds :
      (part : ℕ) (dev : Bytes) → Uploads part → Adds Q (upload_sentinel env client resp part dev)
  unfolding upload_sentinel
  upload_sentinel-Adds part dev upload =
      search (adds_rules, read_partition_uuid-Adds, failing-Adds, upload_part-Adds, upload, local)
        depth 8

  upload_image-Adds :
      (part : ℕ) (dev fs : Bytes) → Uploads part → Adds Q (upload_image env client resp part dev fs)
  unfolding upload_image
  upload_image-Adds part dev fs upload =
      search (adds_rules, clone-Adds, reports, failing-Adds, upload_part-Adds, upload, local) depth
        8

  pub refuse_bitlocker-Adds :
      (part : ℕ) (dev fs : Bytes) → Adds Q (refuse_bitlocker env client resp part dev fs)
  unfolding refuse_bitlocker
  refuse_bitlocker-Adds part dev fs =
      search (adds_rules, is_bitlocker_encrypted-Adds, local) depth 8

  pub capture_part-Adds :
      (part : ℕ) (dev : Bytes) (fixed : List ℕ)
      → Uploads part
      → Adds Q (capture_part env client resp part dev fixed)
  unfolding capture_part
  capture_part-Adds part dev fixed upload =
      search
        (
          adds_rules, detect_filesystem-Adds, refuse_bitlocker-Adds, upload_sentinel-Adds,
          prepare-Adds, upload_image-Adds, upload, local,
        )
        depth 9

  pub capture_parts-Adds :
      (devs : List Bytes) (part : ℕ) (fixed : List ℕ)
      → ((j : ℕ) → part ≤ j → j < part + length devs → Uploads j)
      → Adds Q (capture_parts env client resp devs part fixed)
  unfolding capture_parts
  capture_parts-Adds [] part fixed upload = search adds_rules
  capture_parts-Adds (dev ∷ devs) part fixed upload =
      Adds-bind _ _ (capture_part-Adds part dev fixed (upload part (omega arith) (omega arith)))
        (λ more.
          capture_parts-Adds devs (part + 1) more (λ j lo hi. upload j (omega arith) (omega arith)))
