-- ===== src/Partition.antt =====
-- agent/internal/partition/partition.go: backup, restore and growth of partition tables, and the wipe.
pub mod Calls
pub mod RoundTrip
pub mod BackedUp
pub mod Highest
use fos_next.Prelude.{
  ℕ, zero, suc, ◌+◌, ◌-◌, ℤ, pos, negsuc, Bool, true, false, List, [], ◌∷◌, ◌++◌, Option, none,
  some, Bytes, codes, ltb, ◌==◌, if◌then◌else◌, Result, ok, err, length, take, drop,
}
use fos_next.Strings.{equal, trim_space, trim_left, split, cut, is_digit}
use fos_next.Strconv.{itoa, Scan, done, scan_uint, signed}
use fos_next.Base64
use fos_next.Wire.{TableType, table_mbr, table_gpt, TableBlob, Codec}
use fos_next.World.{
  Syscall, open_read, open_write, read, write, read_file, create_temp, remove, sleep, Reply, Env,
  Act, pure, fail, attempt, branch, deferred, lift, match_result, match_option, ◌>>=◌, ◌>>◌, sys,
  exec_with, combined_output, output, try, wrapped, expect,
}

-- the text, filled up with zero bytes to length `n` (a short `Read` into a fresh buffer), or cut there
unfoldable pub fill : ℕ → Bytes → Bytes
fill zero s = []
fill (suc n) [] = 0 ∷ fill n []
fill (suc n) (c ∷ s) = c ∷ fill n s

-- `len(mbrRaw) < 446`
unfoldable pub is_short : Bytes → Bool
is_short raw = ltb (length raw) 446

-- the digits in front
unfoldable pub leading_digits : Bytes → Bytes
unfolding is_digit
leading_digits [] = []
leading_digits (c ∷ s) = if is_digit c then c ∷ leading_digits s else []

-- a positive number that an `int` holds
unfoldable pub in_range : ℤ × Bool → ℕ
in_range (pos n, true) = n
in_range (pos n, false) = 0
in_range (negsuc n, b) = 0

-- the number that a text of digits begins with, 0 if it does not
unfoldable pub digits_value : Bytes → ℕ
unfolding in_range scan_uint signed
digits_value [] = 0
digits_value (d ∷ ds) = in_range (signed false (scan_uint (d ∷ ds) 0))

unfoldable pub positive : Bytes → ℕ
unfolding leading_digits digits_value
positive s = digits_value (leading_digits s)

-- `fmt.Sscanf(s, "%d", &n)`, with 0 for an error and for a negative number, neither of which the
-- caller uses
unfoldable pub sscan_number : Bytes → ℕ
unfolding positive trim_left
sscan_number s = elim (trim_left s) [
  | [] ↦ 0
  | c ∷ r ↦ if c == b'-' then 0 else if c == b'+' then positive r else positive (c ∷ r)
]

-- the loop of `lastPartitionNumber` over the lines of `parted -m`
unfoldable pub last_number : List Bytes → ℕ → ℕ
last_number [] last = last
last_number (line ∷ lines) last =
    let (field, _, found) = cut line b':' in
    let n = sscan_number field in
    last_number lines (if found then (if ltb last n then n else last) else last)

unfoldable pub found_number : Bytes → ℕ → Act ℕ
found_number disk zero = fail (codes "no partitions found on " ++ disk)
found_number disk (suc n) = pure (suc n)

module _ (env : Env) where
  -- `DetectTableType`
  unfoldable pub detect_table_type : Bytes → Act TableType
  detect_table_type disk = do
    r ← attempt (
        output env (codes "blkid")
          (codes "-p" ∷ codes "-o" ∷ codes "value" ∷ codes "-s" ∷ codes "PTTYPE" ∷ disk ∷ []))
    match_result r
        (λ out. pure (if equal (trim_space out) (codes "dos") then table_mbr else table_gpt))
        (λ _. pure table_gpt)

  -- `settlePartTable`, behind a `partprobe`
  unfoldable pub reread_table : Bytes → Act (Unit {0})
  reread_table disk = do
    combined_output env (codes "partprobe") (disk ∷ [])
    r ← combined_output env (codes "udevadm") (codes "settle" ∷ codes "--timeout=10" ∷ [])
    match_option r.fault (λ _. sys env (sleep 500) >> pure tt) (pure tt)

  unfoldable pub backup_gpt : Bytes → Act Bytes
  backup_gpt disk = do
    tmp ←
        wrapped (codes "sgdisk backup: create temp file: ")
          (try env (create_temp (codes "sgdisk-backup-*")))
    deferred (sys env (remove tmp)) (do
      r ← combined_output env (codes "sgdisk") ((codes "--backup=" ++ tmp) ∷ disk ∷ [])
      expect (codes "sgdisk backup: ") r
      raw ← wrapped (codes "sgdisk backup: read temp file: ") (try env (read_file tmp))
      pure (
          env.codec.marshal_table
            (record { type = table_gpt; sgdisk = Base64.encode raw; sfdisk = []; mbr_raw = [] })))

  unfoldable pub backup_mbr : Bytes → Act Bytes
  backup_mbr disk = do
    dump ← wrapped (codes "sfdisk dump: ") (output env (codes "sfdisk") (codes "-d" ∷ disk ∷ []))
    wrapped (codes "open disk for MBR read: ") (try env (open_read disk))
    raw ← wrapped (codes "read MBR: ") (try env (read disk 512))
    pure (
        env.codec.marshal_table (record {
          type = table_mbr;
          sgdisk = [];
          sfdisk = dump;
          mbr_raw = Base64.encode (fill 512 raw);
        }))

  -- `Backup`
  unfoldable pub backup : Bytes → Act Bytes
  backup disk = do
    kind ← detect_table_type disk
    branch (equal kind table_mbr) (backup_mbr disk) (backup_gpt disk)

  unfoldable pub restore_sgdisk_raw : Bytes → Bytes → Act (Unit {0})
  restore_sgdisk_raw disk raw = do
    combined_output env (codes "sgdisk") (codes "--zap-all" ∷ disk ∷ [])
    tmp ←
        wrapped (codes "sgdisk restore: create temp file: ")
          (try env (create_temp (codes "sgdisk-restore-*")))
    deferred (sys env (remove tmp)) (do
      wrapped (codes "sgdisk restore: write temp file: ") (try env (write tmp raw))
      r ← combined_output env (codes "sgdisk") ((codes "--load-backup=" ++ tmp) ∷ disk ∷ [])
      expect (codes "sgdisk restore: ") r
      reread_table disk)

  -- the bytes of a base64 text
  unfoldable pub decode64 : Bytes → Bytes → Act Bytes
  decode64 context text =
      match_option (Base64.decode text) pure (fail (context ++ codes "illegal base64 data"))

  unfoldable pub restore_gpt : Bytes → TableBlob → Act (Unit {0})
  restore_gpt disk tb = do
    raw ← decode64 (codes "sgdisk restore: base64 decode: ") tb.sgdisk
    restore_sgdisk_raw disk raw

  -- the boot loader's bytes, and then the table by sfdisk
  unfoldable pub write_mbr : Bytes → Bytes → Bytes → Act (Unit {0})
  write_mbr disk raw dump = do
    wrapped (codes "open disk for MBR write: ") (try env (open_write disk))
    wrapped (codes "write bootloader bytes: ") (try env (write disk (take 446 raw)))
    r ← exec_with env (codes "sfdisk") (codes "--force" ∷ disk ∷ []) dump
    expect (codes "sfdisk restore: ") r
    reread_table disk

  unfoldable pub restore_mbr : Bytes → TableBlob → Act (Unit {0})
  restore_mbr disk tb = do
    raw ← decode64 (codes "MBR restore: base64 decode: ") tb.mbr_raw
    branch (is_short raw)
        (fail
          (codes "MBR restore: boot sector too short (" ++ itoa (length raw) ++ codes " bytes)"))
        (write_mbr disk raw tb.sfdisk)

  -- `Restore`; a blob that is no JSON is a raw sgdisk backup
  unfoldable pub restore : Bytes → Bytes → Act (Unit {0})
  restore disk blob =
      match_result (env.codec.unmarshal_table blob)
        (λ tb. branch (equal tb.type table_mbr) (restore_mbr disk tb) (restore_gpt disk tb))
        (λ _. restore_sgdisk_raw disk blob)

  unfoldable pub last_partition_number : Bytes → Act ℕ
  last_partition_number disk = do
    out ←
        wrapped (codes "parted print: ")
          (output env (codes "parted") (codes "-m" ∷ codes "-s" ∷ disk ∷ codes "print" ∷ []))
    found_number disk (last_number (split out b'\n') 0)

  -- `ExpandLast`
  unfoldable pub expand_last : Bytes → Act (Unit {0})
  expand_last disk = do
    n ← wrapped (codes "find last partition: ") (last_partition_number disk)
    r ←
        combined_output env (codes "parted")
          (codes "-s" ∷ disk ∷ codes "resizepart" ∷ itoa n ∷ codes "100%" ∷ [])
    expect (codes "parted resizepart " ++ itoa n ++ codes ": ") r
    reread_table disk

  -- `Wipe`
  unfoldable pub wipe : Bytes → ℕ → Act (Unit {0})
  wipe disk passes =
      wrapped (codes "shred: ")
        (output env (codes "shred") (codes "-v" ∷ codes "-n" ∷ itoa passes ∷ disk ∷ []))
      >> pure tt
