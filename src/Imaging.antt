-- ===== src/Imaging.antt =====
-- agent/internal/imaging/imaging.go: partclone, the resizing tools, and what is done to a partition
-- around them. The polling goroutine is run between the start and the end of its subprocess, for as
-- many rounds as the environment chooses, with its last round behind the end.
pub mod Status
pub mod Calls
pub mod Shrink
pub mod Mounts
pub mod Unbroken
pub mod Lines
pub mod Printed
use fos_next.Prelude.{
  ℕ, Bool, true, false, ◌||◌, ◌&&◌, List, [], ◌∷◌, ◌++◌, Option, none, some, Bytes, codes,
  if◌then◌else◌, Result, ok, err, take, drop,
}
use fos_next.Strings.{equal, to_lower, trim_space}
use fos_next.World.{
  Command, Syscall, start, wait_exit, open_read, read, remove, mkdir_all, Reply, Env, Act, pure,
  fail, attempt, branch, deferred, ask, match_result, match_option, ◌>>=◌, ◌>>◌, sys, exec_with,
  combined_output, output, try, wrapped, expect,
}
use fos_next.Imaging.Status.{ProgressFunc, status_file, read_status, poll_rounds}

-- `partcloneBin`
unfoldable pub partclone_bin : Bytes → Bytes
partclone_bin fs =
    let l = to_lower fs in
    if equal l (codes "ext2") || (equal l (codes "ext3") || equal l (codes "ext4"))
    then codes "partclone.ext4"
    else if equal l (codes "ntfs")
    then codes "partclone.ntfs"
    else if equal l (codes "fat16") || (equal l (codes "fat32") || equal l (codes "vfat"))
    then codes "partclone.fat"
    else if equal l (codes "xfs")
    then codes "partclone.xfs"
    else if equal l (codes "btrfs")
    then codes "partclone.btrfs"
    else codes "partclone.dd"

-- `CanShrink`
unfoldable pub can_shrink : Bytes → Bool
can_shrink fs =
    let l = to_lower fs in
    if equal l (codes "ext2")
      || (equal l (codes "ext3")
          || (equal l (codes "ext4") || (equal l (codes "ntfs") || equal l (codes "btrfs"))))
    then true
    else false

-- the temporary mount points
abbrev pub btrfs_mount_point : Bytes
btrfs_mount_point = codes "/tmp/fog-btrfs-resize"

abbrev pub xfs_mount_point : Bytes
xfs_mount_point = codes "/tmp/fog-xfs-grow"

abbrev pub ntfs_mount_point : Bytes
ntfs_mount_point = codes "/tmp/fog-ntfs-clean"

module _ (env : Env) where
  -- a call with `CombinedOutput`, whose error carries the output
  unfoldable pub tool : Bytes → Bytes → List Bytes → Act (Unit {0})
  tool context name args = combined_output env name args >>= expect context

  unfoldable pub shrink_ntfs : Bytes → Act Bool
  shrink_ntfs device = do
    tool (codes "ntfsresize dry-run: ") (codes "ntfsresize") (codes "-fns" ∷ device ∷ [])
    tool (codes "ntfsresize shrink: ") (codes "ntfsresize")
        (codes "-f" ∷ codes "--size" ∷ codes "0" ∷ device ∷ [])
    pure true

  unfoldable pub expand_ntfs : Bytes → Act (Unit {0})
  expand_ntfs device =
      tool (codes "ntfsresize expand: ") (codes "ntfsresize")
        (codes "-f" ∷ codes "-b" ∷ codes "-P" ∷ device ∷ [])

  -- `NtfsFixDirty`
  unfoldable pub ntfs_fix_dirty : Bytes → Act (Unit {0})
  ntfs_fix_dirty device =
      combined_output env (codes "ntfsfix") (codes "-b" ∷ codes "-d" ∷ device ∷ []) >> pure tt

  unfoldable pub shrink_ext : Bytes → Act Bool
  shrink_ext device = do
    tool (codes "e2fsck before shrink: ") (codes "e2fsck") (codes "-fy" ∷ device ∷ [])
    tool (codes "resize2fs shrink: ") (codes "resize2fs") (codes "-M" ∷ device ∷ [])
    pure true

  unfoldable pub expand_ext : Bytes → Act (Unit {0})
  expand_ext device = tool (codes "resize2fs expand: ") (codes "resize2fs") (device ∷ [])

  unfoldable pub umount : Bytes → Act Reply
  umount mp = combined_output env (codes "umount") (mp ∷ [])

  unfoldable pub shrink_btrfs : Bytes → Act Bool
  shrink_btrfs device = do
    wrapped (codes "btrfs shrink: mkdir: ") (try env (mkdir_all btrfs_mount_point))
    tool (codes "btrfs shrink: mount: ") (codes "mount")
        (codes "-t" ∷ codes "btrfs" ∷ device ∷ btrfs_mount_point ∷ [])
    deferred (umount btrfs_mount_point) (do
      tool (codes "btrfs resize min: ") (codes "btrfs")
          (codes "filesystem" ∷ codes "resize" ∷ codes "1:min" ∷ btrfs_mount_point ∷ [])
      pure true)

  unfoldable pub expand_btrfs : Bytes → Act (Unit {0})
  expand_btrfs device = do
    wrapped (codes "btrfs expand: mkdir: ") (try env (mkdir_all btrfs_mount_point))
    tool (codes "btrfs expand: mount: ") (codes "mount")
        (codes "-t" ∷ codes "btrfs" ∷ device ∷ btrfs_mount_point ∷ [])
    deferred (umount btrfs_mount_point) (
        tool (codes "btrfs resize max: ") (codes "btrfs")
          (codes "filesystem" ∷ codes "resize" ∷ codes "max" ∷ btrfs_mount_point ∷ []))

  unfoldable pub expand_xfs : Bytes → Act (Unit {0})
  expand_xfs device = do
    wrapped (codes "xfs grow: mkdir: ") (try env (mkdir_all xfs_mount_point))
    tool (codes "xfs grow: mount: ") (codes "mount")
        (codes "-t" ∷ codes "xfs" ∷ device ∷ xfs_mount_point ∷ [])
    deferred (umount xfs_mount_point)
        (tool (codes "xfs_growfs: ") (codes "xfs_growfs") (xfs_mount_point ∷ []))

  unfoldable pub expand_f2fs : Bytes → Act (Unit {0})
  expand_f2fs device = tool (codes "resize.f2fs: ") (codes "resize.f2fs") (device ∷ [])

  -- `Shrink`
  unfoldable pub shrink : Bytes → Bytes → Act Bool
  shrink device fs =
      let l = to_lower fs in
      branch (equal l (codes "ntfs")) (shrink_ntfs device) (
        branch (equal l (codes "ext2") || (equal l (codes "ext3") || equal l (codes "ext4")))
          (shrink_ext device) (branch (equal l (codes "btrfs")) (shrink_btrfs device) (pure false)))

  -- `Expand`
  unfoldable pub expand : Bytes → Bytes → Act (Unit {0})
  expand device fs =
      let l = to_lower fs in
      branch (equal l (codes "ntfs")) (expand_ntfs device) (
        branch (equal l (codes "ext2") || (equal l (codes "ext3") || equal l (codes "ext4")))
          (expand_ext device)
          (branch (equal l (codes "btrfs")) (expand_btrfs device) (
            branch (equal l (codes "xfs")) (expand_xfs device)
              (branch (equal l (codes "f2fs")) (expand_f2fs device) (pure tt)))))

  -- A partclone run with its status poll: the rounds while it runs, and one more when it is done.
  -- A run that starts yields its output and its error.
  unfoldable pub partclone : Command → ProgressFunc → Act Reply
  partclone command progress = do
    sys env (remove status_file)
    wrapped (codes "start partclone: ") (try env (start command))
    rounds ← ask env.ticks
    poll_rounds env rounds progress
    r ← sys env (wait_exit command)
    read_status env progress
    pure r

  abbrev pub restore_command : Bytes → Bytes → Command
  restore_command device src = record {
    name = codes "partclone.restore";
    args =
        codes "--restore"
        ∷ codes "--overwrite"
        ∷ codes "--source"
        ∷ codes "-"
        ∷ codes "--output"
        ∷ device
        ∷ [];
    stdin = src;
  }

  -- The error of `cmd.Wait`: that of the subprocess, or else that of the copy of `src` to its input.
  unfoldable pub wait_error : Option Bytes → Bool → Option Bytes → Option Bytes
  wait_error (some e) read_all broken = some e
  wait_error none true broken = broken
  wait_error none false broken = none

  -- `Restore`
  unfoldable pub restore : Bytes → Reply → ProgressFunc → Act (Unit {0})
  restore device src progress = do
    r ← partclone (restore_command device src.out) progress
    read_all ← ask env.drained
    match_option (wait_error r.fault read_all src.fault)
        (λ e. fail (codes "partclone.restore: " ++ e)) (pure tt)

  abbrev pub clone_command : Bytes → Bytes → Command
  clone_command device fs = record {
    name = partclone_bin fs;
    args = codes "--clone" ∷ codes "--source" ∷ device ∷ codes "--output" ∷ codes "-" ∷ [];
    stdin = [];
  }

  -- `Clone`: what is written to `dst`, and the error that is returned
  unfoldable pub clone : Bytes → Bytes → ProgressFunc → Act Reply
  clone device fs progress = do
    started ← attempt (partclone (clone_command device fs) progress)
    match_result started
        (λ r.
          match_option r.fault
            (λ e. pure (record { out = r.out; fault = some (codes "partclone.clone: " ++ e) }))
            (pure r))
        (λ e. pure (record { out = []; fault = some e }))

  -- the probe of the boot sector, at bytes 3 to 10
  unfoldable pub has_bitlocker_id : Bytes → Act Bool
  has_bitlocker_id device = do
    opened ← sys env (open_read device)
    match_option opened.fault (λ _. pure false)
        (do
          r ← sys env (read device 11)
          match_option r.fault (λ _. pure false)
              (pure (equal (take 8 (drop 3 r.out)) (codes "-FVE-FS-"))))

  -- `IsBitlockerEncrypted`
  unfoldable pub is_bitlocker_encrypted : Bytes → Act Bool
  is_bitlocker_encrypted device = do
    r ← attempt (
        output env (codes "blkid")
          (codes "-p" ∷ codes "-o" ∷ codes "value" ∷ codes "-s" ∷ codes "TYPE" ∷ device ∷ []))
    match_result r
        (λ out.
          branch (equal (trim_space out) (codes "BitLocker")) (pure true) (has_bitlocker_id device))
        (λ _. has_bitlocker_id device)

  -- `CleanNTFS`
  unfoldable pub clean_ntfs : Bytes → Act (Unit {0})
  clean_ntfs device = do
    made ← sys env (mkdir_all ntfs_mount_point)
    match_option made.fault (λ _. pure tt)
        (do
          m ←
              combined_output env (codes "ntfs-3g")
                (codes "-o" ∷ codes "remove_hiberfile" ∷ device ∷ ntfs_mount_point ∷ [])
          match_option m.fault (λ _. pure tt)
              (deferred (umount ntfs_mount_point) (do
                sys env (remove (ntfs_mount_point ++ codes "/pagefile.sys"))
                sys env (remove (ntfs_mount_point ++ codes "/hiberfil.sys"))
                sys env (remove (ntfs_mount_point ++ codes "/swapfile.sys"))
                pure tt)))
