-- ===== src/Actions/Deploy.antt =====
-- `Deploy` of agent/internal/actions/actions.go.
pub mod Calls
pub mod Requests
pub mod Downloads
pub mod Restored
pub mod Contents
pub mod Served
pub mod Earned
use fos_next.Prelude.{
  ℕ, zero, suc, ◌+◌, ◌-◌, ℤ, pos, eq_ℤ, pos_part, Bool, true, false, not, ◌&&◌, ◌||◌, List, [], ◌∷◌,
  ◌++◌, Option, none, some, Bytes, codes, ◌==◌, if◌then◌else◌, Result, ok, err,
}
use fos_next.Strings.{equal, to_lower}
use fos_next.Strconv.{itoa}
use fos_next.Wire.{HandshakeResponse, PartMeta, Codec}
use fos_next.World.{
  Syscall, sleep, Reply, Env, Act, pure, fail, attempt, branch, lift, match_result, match_option,
  ◌>>=◌, ◌>>◌, sys,
}
use fos_next.Api.{Client, download_part}
use fos_next.Disk
use fos_next.Disk.{partition_device}
use fos_next.Partition
use fos_next.Imaging
use fos_next.Actions.Parts.{report, failing, progress_fn, detect_filesystem, make_swap}

-- `fixedSet[part]`
unfoldable pub is_fixed : List ℤ → ℕ → Bool
is_fixed [] part = false
is_fixed (n ∷ ns) part = eq_ℤ n (pos part) || is_fixed ns part

-- the first byte of a body is `{`
unfoldable pub starts_with_brace : Bytes → Bool
starts_with_brace [] = false
starts_with_brace (c ∷ s) = c == b'{'

-- `io.ReadAll`
unfoldable pub read_all : Reply → Act Bytes
read_all body = match_option body.fault fail (pure body.out)

-- `isResizable`
abbrev pub is_resizable : HandshakeResponse → Bool
is_resizable resp = equal resp.image_type (codes "resizable")

module _ (env : Env) (client : Client) (resp : HandshakeResponse) where
  -- a part that is a JSON sentinel: a swap partition is made anew, any other is skipped
  unfoldable pub restore_sentinel : Bytes → Reply → Act (Unit {0})
  restore_sentinel dev body = do
    raw ← read_all body
    let meta = env.codec.unmarshal_meta raw
    branch (equal meta.type (codes "swap")) (make_swap env dev meta.uuid) (pure tt)

  -- what follows the restore of a partition
  unfoldable pub after_restore : ℕ → Bytes → Act (Unit {0})
  after_restore part dev = do
    restored_fs ← detect_filesystem env dev
    branch (equal (to_lower restored_fs) (codes "ntfs")) (Imaging.ntfs_fix_dirty env dev) (pure tt)
    branch (is_resizable resp && not (is_fixed resp.fixed_size_partitions part))
        (attempt (Imaging.expand env dev restored_fs) >> pure tt) (pure tt)

  -- a part that is a partclone image; a body that breaks off ends partclone's input there
  unfoldable pub restore_image : ℕ → Bytes → Reply → Act (Unit {0})
  restore_image part dev body = do
    detect_filesystem env dev
    Imaging.restore env dev body (progress_fn env client resp)
    after_restore part dev

  -- one round of the attempt loop; `resumeOffset` is 0 in every round
  unfoldable pub try_part : Bytes → ℕ → Act (Unit {0})
  try_part target_disk part = do
    let dev = partition_device target_disk part
    body ← download_part env client resp.image_id part 0
    branch (starts_with_brace body.out) (restore_sentinel dev body) (restore_image part dev body)

  -- The attempt loop with the rounds that are left and `partErr`, which it returns: `none` for nil.
  unfoldable pub attempt_loop : Bytes → ℕ → ℕ → Option Bytes → Act (Option Bytes)
  attempt_loop target_disk part zero part_err = pure part_err
  attempt_loop target_disk part (suc rounds) part_err = do
    r ← attempt (try_part target_disk part)
    match_result r (λ _. pure none)
        (λ e. sys env (sleep 5000) >> attempt_loop target_disk part rounds (some e))

  -- one round of the loop over the partitions
  unfoldable pub deploy_part : Bytes → ℕ → Act (Unit {0})
  deploy_part target_disk part = do
    part_err ← attempt_loop target_disk part 3 none
    match_option part_err
        (λ e.
          fail (codes "partition " ++ itoa part ++ codes " restore failed after 3 attempts: " ++ e))
        (pure tt)

  -- the loop over the partitions, from `part` on, for `left` of them
  unfoldable pub deploy_parts : Bytes → ℕ → ℕ → Act (Unit {0})
  deploy_parts target_disk zero part = pure tt
  deploy_parts target_disk (suc left) part =
      deploy_part target_disk part >> deploy_parts target_disk left (part + 1)

  -- the download and the restore of the partition table
  unfoldable pub deploy_table : Bytes → Act (Unit {0})
  deploy_table target_disk = do
    body ←
        failing (codes "partition table download failed: ")
          (download_part env client resp.image_id 0 0)
    table ← failing (codes "reading partition table: ") (read_all body)
    failing (codes "restoring partition table: ") (Partition.restore env target_disk table)

  -- the growth of the last table entry of a resizable image, whose error is only logged
  unfoldable pub grow_last : Bytes → Act (Unit {0})
  grow_last target_disk =
      branch (is_resizable resp) (attempt (Partition.expand_last env target_disk) >> pure tt)
        (pure tt)

  -- the part of `Deploy` in front of its report
  unfoldable pub deploy_steps : Act (Unit {0})
  deploy_steps = do
    target_disk ← failing (codes "disk detection failed: ") (Disk.primary env)
    deploy_table target_disk
    grow_last target_disk
    deploy_parts target_disk (pos_part resp.part_count) 1

  -- `Deploy`
  unfoldable pub deploy : Act (Unit {0})
  deploy = report env client resp deploy_steps
