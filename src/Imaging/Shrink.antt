-- ===== src/Imaging/Shrink.antt =====
-- `CanShrink` and `Shrink` of agent/internal/imaging/imaging.go agree.
use fos_next.Prelude.{Bool, true, false, Bytes, ok, ◌≡◌, arith}
use fos_next.World.{History, Env, branch, pure}
use fos_next.World.Gives.{Gives, gives_rules}
use fos_next.Imaging.{can_shrink, shrink_ntfs, shrink_ext, shrink_btrfs, shrink}

abbrev IsTrue : Bool → Type 0
IsTrue b = b ≡ true

module _ (env : Env) (device : Bytes) where
  shrink_ntfs-Gives : Gives IsTrue (shrink_ntfs env device)
  unfolding shrink_ntfs
  shrink_ntfs-Gives = search gives_rules

  shrink_ext-Gives : Gives IsTrue (shrink_ext env device)
  unfolding shrink_ext
  shrink_ext-Gives = search gives_rules

  shrink_btrfs-Gives : Gives IsTrue (shrink_btrfs env device)
  unfolding shrink_btrfs
  shrink_btrfs-Gives = search gives_rules depth 8

  -- A shrink that returns no error reports that it shrank the filesystem exactly if `CanShrink` holds
  -- of its type.
  pub shrink-can_shrink :
      (fs : Bytes) (h : History) (b : Bool) → (shrink env device fs h).0 ≡ ok b → b ≡ can_shrink fs
  unfolding shrink can_shrink branch pure
  shrink-can_shrink fs h b e =
      ground (arith, shrink_ntfs-Gives.at h b, shrink_ext-Gives.at h b, shrink_btrfs-Gives.at h b)

  -- Where `CanShrink` does not hold, `Shrink` does nothing at all.
  shrink_unsupported :
      (fs : Bytes) (h : History) → can_shrink fs ≡ false → shrink env device fs h ≡ (ok false, h)
  unfolding shrink can_shrink branch pure
  shrink_unsupported fs h e = ground arith
