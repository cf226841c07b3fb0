-- ===== src/Imaging/Calls.antt =====
-- The imaging component makes calls of the system, and what its progress function does.
use fos_next.Prelude.{ℕ, zero, suc, ℤ, Bytes, List, ◌∷◌}
use fos_next.World.{Command, Syscall, Reply, Event, call, Env}
use fos_next.World.Adds.{Adds, Adds-bind, adds_rules}
use fos_next.Imaging.Status.{ProgressFunc, use_fields, read_status, poll_rounds}
use fos_next.Imaging.{
  tool, shrink_ntfs, expand_ntfs, ntfs_fix_dirty, shrink_ext, expand_ext, umount, shrink_btrfs,
  expand_btrfs, expand_xfs, expand_f2fs, shrink, expand, partclone, restore, clone,
  has_bitlocker_id, is_bitlocker_encrypted, clean_ntfs,
}

module _ {Q : Event → Type 0} (env : Env) (local : (c : Syscall) → Q (call c)) where
  tool-Adds : (context name : Bytes) (args : List Bytes) → Adds Q (tool env context name args)
  unfolding tool
  tool-Adds context name args = search adds_rules

  shrink_ntfs-Adds : (device : Bytes) → Adds Q (shrink_ntfs env device)
  unfolding shrink_ntfs
  shrink_ntfs-Adds device = search (adds_rules, tool-Adds)

  expand_ntfs-Adds : (device : Bytes) → Adds Q (expand_ntfs env device)
  unfolding expand_ntfs
  expand_ntfs-Adds device = search (adds_rules, tool-Adds)

  pub ntfs_fix_dirty-Adds : (device : Bytes) → Adds Q (ntfs_fix_dirty env device)
  unfolding ntfs_fix_dirty
  ntfs_fix_dirty-Adds device = search adds_rules

  shrink_ext-Adds : (device : Bytes) → Adds Q (shrink_ext env device)
  unfolding shrink_ext
  shrink_ext-Adds device = search (adds_rules, tool-Adds)

  expand_ext-Adds : (device : Bytes) → Adds Q (expand_ext env device)
  unfolding expand_ext
  expand_ext-Adds device = search (adds_rules, tool-Adds)

  umount-Adds : (mp : Bytes) → Adds Q (umount env mp)
  unfolding umount
  umount-Adds mp = search adds_rules

  shrink_btrfs-Adds : (device : Bytes) → Adds Q (shrink_btrfs env device)
  unfolding shrink_btrfs
  shrink_btrfs-Adds device = search (adds_rules, tool-Adds, umount-Adds) depth 8

  expand_btrfs-Adds : (device : Bytes) → Adds Q (expand_btrfs env device)
  unfolding expand_btrfs
  expand_btrfs-Adds device = search (adds_rules, tool-Adds, umount-Adds) depth 8

  expand_xfs-Adds : (device : Bytes) → Adds Q (expand_xfs env device)
  unfolding expand_xfs
  expand_xfs-Adds device = search (adds_rules, tool-Adds, umount-Adds) depth 8

  expand_f2fs-Adds : (device : Bytes) → Adds Q (expand_f2fs env device)
  unfolding expand_f2fs
  expand_f2fs-Adds device = search (adds_rules, tool-Adds)

  pub shrink-Adds : (device fs : Bytes) → Adds Q (shrink env device fs)
  unfolding shrink
  shrink-Adds device fs = search (adds_rules, shrink_ntfs-Adds, shrink_ext-Adds, shrink_btrfs-Adds)

  pub expand-Adds : (device fs : Bytes) → Adds Q (expand env device fs)
  unfolding expand
  expand-Adds device fs =
      search
        (
          adds_rules, expand_ntfs-Adds, expand_ext-Adds, expand_btrfs-Adds, expand_xfs-Adds,
          expand_f2fs-Adds,
        )
        depth 8

  has_bitlocker_id-Adds : (device : Bytes) → Adds Q (has_bitlocker_id env device)
  unfolding has_bitlocker_id
  has_bitlocker_id-Adds device = search adds_rules depth 8

  pub is_bitlocker_encrypted-Adds : (device : Bytes) → Adds Q (is_bitlocker_encrypted env device)
  unfolding is_bitlocker_encrypted
  is_bitlocker_encrypted-Adds device = search (adds_rules, has_bitlocker_id-Adds) depth 7

  pub clean_ntfs-Adds : (device : Bytes) → Adds Q (clean_ntfs env device)
  unfolding clean_ntfs
  clean_ntfs-Adds device = search (adds_rules, umount-Adds) depth 12

  module _ (progress : ProgressFunc) (reports : (pct bpm : ℤ) → Adds Q (progress pct bpm)) where
    use_fields-Adds : (parts : List Bytes) → Adds Q (use_fields env progress parts)
    unfolding use_fields
    use_fields-Adds (a ∷ b ∷ c ∷ d ∷ e ∷ f ∷ g ∷ more) = search (adds_rules, reports)
    use_fields-Adds _ = search adds_rules

    pub read_status-Adds : Adds Q (read_status env progress)
    unfolding read_status
    read_status-Adds = search (adds_rules, use_fields-Adds)

    pub poll_rounds-Adds : (rounds : ℕ) → Adds Q (poll_rounds env rounds progress)
    unfolding poll_rounds
    poll_rounds-Adds zero = search adds_rules
    poll_rounds-Adds (suc rounds) = Adds-bind _ _ read_status-Adds (λ _. poll_rounds-Adds rounds)

    partclone-Adds : (command : Command) → Adds Q (partclone env command progress)
    unfolding partclone
    partclone-Adds command = search (adds_rules, read_status-Adds, poll_rounds-Adds) depth 9

    pub restore-Adds : (device : Bytes) (src : Reply) → Adds Q (restore env device src progress)
    unfolding restore
    restore-Adds device src = search (adds_rules, partclone-Adds) depth 7

    pub clone-Adds : (device fs : Bytes) → Adds Q (clone env device fs progress)
    unfolding clone
    clone-Adds device fs = search (adds_rules, partclone-Adds) depth 7
