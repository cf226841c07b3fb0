-- ===== src/Actions/Deploy/Calls.antt =====
-- What the steps of `Deploy` of agent/internal/actions/actions.go add to the history behind a download.
use fos_next.Prelude.{ℕ, ℤ, Bytes}
use fos_next.Wire.{HandshakeResponse}
use fos_next.World.{Syscall, Reply, Event, call, Env}
use fos_next.World.Adds.{Adds, adds_rules}
use fos_next.Api.{Client}
use fos_next.Imaging.Calls.{restore-Adds, expand-Adds, ntfs_fix_dirty-Adds}
use fos_next.Actions.Parts.{progress_fn}
use fos_next.Actions.Parts.Events.{detect_filesystem-Adds, make_swap-Adds}
use fos_next.Actions.Deploy.{read_all, restore_sentinel, after_restore, restore_image}

pub read_all-Adds : {Q : Event → Type 0} (body : Reply) → Adds Q (read_all body)
unfolding read_all
read_all-Adds body = search adds_rules

module _ {Q : Event → Type 0} (env : Env) (local : (c : Syscall) → Q (call c)) (client : Client)
    (resp : HandshakeResponse) where
  pub restore_sentinel-Adds :
      (dev : Bytes) (body : Reply) → Adds Q (restore_sentinel env client resp dev body)
  unfolding restore_sentinel
  restore_sentinel-Adds dev body = search (adds_rules, read_all-Adds, make_swap-Adds, local)

  pub after_restore-Adds :
      (part : ℕ) (dev : Bytes) → Adds Q (after_restore env client resp part dev)
  unfolding after_restore
  after_restore-Adds part dev =
      search (adds_rules, detect_filesystem-Adds, ntfs_fix_dirty-Adds, expand-Adds, local) depth 8

  module _ (reports : (pct bpm : ℤ) → Adds Q (progress_fn env client resp pct bpm)) where
    pub restore_image-Adds :
        (part : ℕ) (dev : Bytes) (body : Reply)
        → Adds Q (restore_image env client resp part dev body)
    unfolding restore_image
    restore_image-Adds part dev body =
        search
          (adds_rules, detect_filesystem-Adds, restore-Adds, reports, after_restore-Adds, local)
          depth 8
