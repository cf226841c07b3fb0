-- ===== src/Tests/Tables.antt =====
-- Partition tables, base64 and filesystems of agent/internal/partition and agent/internal/imaging.
use fos_next.Prelude.{none, true, [], ◌∷◌, Bytes, codes, ok, ◌≡◌, refl}
use fos_next.Strings.{equal, to_lower, lower, trim_space, trim_left, trim_right, is_space}
use fos_next.Base64
use fos_next.Wire.{table_mbr}
use fos_next.World.{
  Env, try, wrapped, attempt, match_result, checked, pure, branch, match_option, ◌>>=◌, sys,
  exec_with, combined_output, expect,
}
use fos_next.Partition.{fill}
use fos_next.Imaging.{can_shrink, shrink, shrink_ntfs, tool}
use fos_next.Imaging.Shrink.{shrink-can_shrink}
use fos_next.Imaging.{
  btrfs_mount_point, xfs_mount_point, ntfs_mount_point, shrink_btrfs, expand_btrfs, expand_xfs,
  clean_ntfs,
}
use fos_next.Imaging.Mounts.{
  command, mount_call, btrfs_resize, ntfs_3g, removals, Tidied, Resized, mounts-Tidied,
}
use fos_next.Tests.{demo_env, write_table}
use fos_next.Strings.{split, split_on, after_last}
use fos_next.World.{Reply, ask, fail}
use fos_next.Imaging.{restore, partclone, wait_error}
use fos_next.Imaging.Status.{ProgressFunc, poll_rounds, read_status, use_fields, last_line}
use fos_next.Imaging.Unbroken.{Completed, restore-Completed}

abbrev disk_path : Bytes
disk_path = codes "/dev/sda"

-- the world in which every command prints `dos`
abbrev dos_env : Env
dos_env = record demo_env { answer = λ h c. record { out = codes "dos"; fault = none } }

abbrev dos_blob : Bytes
dos_blob = write_table (record {
  type = table_mbr;
  sgdisk = [];
  sfdisk = codes "dos";
  mbr_raw = Base64.encode (fill 512 (codes "dos"));
})

ntfs_shrinks : (shrink demo_env (codes "/dev/sda1") (codes "ntfs") []).0 ≡ ok true
unfolding shrink shrink_ntfs tool to_lower lower equal branch combined_output exec_with sys expect
    match_option ◌>>=◌ pure
ntfs_shrinks = refl

shrink-can_shrink_example : true ≡ can_shrink (codes "ntfs")
shrink-can_shrink_example =
    shrink-can_shrink demo_env (codes "/dev/sda1") (codes "ntfs") [] true ntfs_shrinks

abbrev sda1 : Bytes
sda1 = codes "/dev/sda1"

mounts-Tidied_example :
    Resized demo_env btrfs_mount_point
      (mount_call demo_env (codes "btrfs") sda1 btrfs_mount_point)
      (btrfs_resize demo_env (codes "1:min"))
      true
      (shrink_btrfs demo_env sda1)
      []
    × Resized demo_env btrfs_mount_point
        (mount_call demo_env (codes "btrfs") sda1 btrfs_mount_point)
        (btrfs_resize demo_env (codes "max"))
        tt
        (expand_btrfs demo_env sda1)
        []
    × Resized demo_env xfs_mount_point
        (mount_call demo_env (codes "xfs") sda1 xfs_mount_point)
        (command (codes "xfs_growfs") (xfs_mount_point ∷ []))
        tt
        (expand_xfs demo_env sda1)
        []
    × Tidied demo_env ntfs_mount_point
        (ntfs_3g demo_env sda1)
        (removals demo_env)
        []
        (clean_ntfs demo_env sda1 []).1
    × ((clean_ntfs demo_env sda1 []).0 ≡ ok tt)
mounts-Tidied_example = mounts-Tidied demo_env sda1 []

abbrev demo_image : Reply
demo_image = record { out = codes "image"; fault = none }

abbrev silent : ProgressFunc
silent pct bpm = pure tt

image_restored : (restore demo_env (codes "/dev/sda1") demo_image silent []).0 ≡ ok tt
unfolding restore partclone wait_error poll_rounds read_status use_fields last_line split split_on
    trim_space trim_left trim_right is_space after_last ask sys wrapped try checked attempt
    match_result match_option pure fail ◌>>=◌
image_restored = refl

restore-Completed_example :
    Completed demo_env silent
      (codes "/dev/sda1")
      demo_image
      (restore demo_env (codes "/dev/sda1") demo_image silent []).1
restore-Completed_example =
    restore-Completed demo_env silent (codes "/dev/sda1") demo_image [] image_restored
