-- ===== src/Partition/BackedUp.antt =====
-- What `Restore` of agent/internal/partition/partition.go makes of the blob that `Backup` returned.
use fos_next.Prelude.{ap, codes, ◌++◌, none, [], ◌∷◌, Bytes, ◌≡◌, ap, All}
use fos_next.Base64
use fos_next.Base64.RoundTrip.{IsByte}
use fos_next.World.{
  Syscall, read_file, create_temp, read, open_read, exec, call, remove, sys, History, Env, sys,
}
use fos_next.Partition.{fill, restore_sgdisk_raw, write_mbr, restore}

-- The outputs of calls consist of bytes.
abbrev pub GivesBytes : Env → Type 0
GivesBytes env = (h : History) (c : Syscall) → All IsByte (env.answer h c).out

module _ (env : Env) where
  abbrev pub temp_call : Syscall
  temp_call = create_temp (codes "sgdisk-backup-*")

  abbrev pub sgdisk_call : Bytes → Bytes → Syscall
  sgdisk_call file disk =
      exec (record {
        name = codes "sgdisk";
        args = (codes "--backup=" ++ file) ∷ disk ∷ [];
        stdin = [];
      })

  -- A backup of `disk` that ended in `final` has made a temporary file, has had sgdisk back up the
  -- table of `disk` to it without an error, has read it, and has removed it; and restoring the blob
  -- means to load what was read.
  pub record GptBlob (disk blob : Bytes) (final : History) : Type 0 where
    pub at : History
    pub file : Bytes
    pub named : (env.answer at temp_call).out ≡ file
    pub asked :
        final
        ≡ call (remove file)
          ∷ call (read_file file)
          ∷ call (sgdisk_call file disk)
          ∷ call temp_call
          ∷ at
    pub backed_up : (env.answer (call temp_call ∷ at) (sgdisk_call file disk)).fault ≡ none
    pub restores :
        (target : Bytes) (h : History)
        → restore env target blob h
          ≡ restore_sgdisk_raw env target
              (env.answer (call (sgdisk_call file disk) ∷ call temp_call ∷ at) (read_file file)).out
              h

  abbrev pub dump_call : Bytes → Syscall
  dump_call disk =
      exec (record { name = codes "sfdisk"; args = codes "-d" ∷ disk ∷ []; stdin = [] })

  -- A backup of `disk` that ended in `final` has asked sfdisk for a dump and read the first sector
  -- last, and restoring the blob means what `write_mbr` does with that sector and that dump: it writes
  -- the sector's first 446 bytes and replays the dump.
  pub record MbrBlob (disk blob : Bytes) (final : History) : Type 0 where
    pub at : History
    pub asked : final ≡ call (read disk 512) ∷ call (open_read disk) ∷ call (dump_call disk) ∷ at
    pub restores :
        (target : Bytes) (h : History)
        → restore env target blob h
          ≡ write_mbr env target
              (fill 512
                (env.answer
                  (call (open_read disk) ∷ call (dump_call disk) ∷ at)
                  (read disk 512)).out)
              (env.answer at (dump_call disk)).out
              h
