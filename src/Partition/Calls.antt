-- ===== src/Partition/Calls.antt =====
-- The partition component makes calls of the system and no requests.
use fos_next.Prelude.{ℕ, zero, suc, Bytes}
use fos_next.Wire.{TableBlob}
use fos_next.World.{Syscall, Event, call, Env}
use fos_next.World.Adds.{Adds, adds_rules}
use fos_next.Partition.{
  found_number, detect_table_type, reread_table, backup_gpt, backup_mbr, backup, restore_sgdisk_raw,
  decode64, restore_gpt, write_mbr, restore_mbr, restore, last_partition_number, expand_last, wipe,
}

module _ {Q : Event → Type 0} (env : Env) (local : (c : Syscall) → Q (call c)) where
  found_number-Adds : (disk : Bytes) (n : ℕ) → Adds Q (found_number disk n)
  unfolding found_number
  found_number-Adds disk zero = search adds_rules
  found_number-Adds disk (suc n) = search adds_rules

  reread_table-Adds : (disk : Bytes) → Adds Q (reread_table env disk)
  unfolding reread_table
  reread_table-Adds disk = search adds_rules depth 8

  backup_gpt-Adds : (disk : Bytes) → Adds Q (backup_gpt env disk)
  unfolding backup_gpt
  backup_gpt-Adds disk = search adds_rules depth 9

  backup_mbr-Adds : (disk : Bytes) → Adds Q (backup_mbr env disk)
  unfolding backup_mbr
  backup_mbr-Adds disk = search adds_rules depth 9

  detect_table_type-Adds : (disk : Bytes) → Adds Q (detect_table_type env disk)
  unfolding detect_table_type
  detect_table_type-Adds disk = search adds_rules

  pub backup-Adds : (disk : Bytes) → Adds Q (backup env disk)
  unfolding backup
  backup-Adds disk = search (adds_rules, detect_table_type-Adds, backup_gpt-Adds, backup_mbr-Adds)

  restore_sgdisk_raw-Adds : (disk raw : Bytes) → Adds Q (restore_sgdisk_raw env disk raw)
  unfolding restore_sgdisk_raw
  restore_sgdisk_raw-Adds disk raw = search (adds_rules, reread_table-Adds) depth 9

  decode64-Adds : (context text : Bytes) → Adds Q (decode64 env context text)
  unfolding decode64
  decode64-Adds context text = search adds_rules

  restore_gpt-Adds : (disk : Bytes) (tb : TableBlob) → Adds Q (restore_gpt env disk tb)
  unfolding restore_gpt
  restore_gpt-Adds disk tb = search (adds_rules, decode64-Adds, restore_sgdisk_raw-Adds)

  write_mbr-Adds : (disk raw dump : Bytes) → Adds Q (write_mbr env disk raw dump)
  unfolding write_mbr
  write_mbr-Adds disk raw dump = search (adds_rules, reread_table-Adds) depth 9

  restore_mbr-Adds : (disk : Bytes) (tb : TableBlob) → Adds Q (restore_mbr env disk tb)
  unfolding restore_mbr
  restore_mbr-Adds disk tb = search (adds_rules, decode64-Adds, write_mbr-Adds)

  pub restore-Adds : (disk blob : Bytes) → Adds Q (restore env disk blob)
  unfolding restore
  restore-Adds disk blob =
      search (adds_rules, restore_gpt-Adds, restore_mbr-Adds, restore_sgdisk_raw-Adds)

  last_partition_number-Adds : (disk : Bytes) → Adds Q (last_partition_number env disk)
  unfolding last_partition_number
  last_partition_number-Adds disk = search (adds_rules, found_number-Adds)

  pub expand_last-Adds : (disk : Bytes) → Adds Q (expand_last env disk)
  unfolding expand_last
  expand_last-Adds disk = search (adds_rules, last_partition_number-Adds, reread_table-Adds) depth 9

  pub wipe-Adds : (disk : Bytes) (passes : ℕ) → Adds Q (wipe env disk passes)
  unfolding wipe
  wipe-Adds disk passes = search adds_rules
