-- ===== src/Actions/Capture.antt =====
-- `Capture` of agent/internal/actions/actions.go. The goroutine that runs partclone is run in front
-- of the upload of its output; an error of it breaks the upload's body off, as `CloseWithError` does.
pub mod Calls
pub mod Requests
pub mod Numbering
pub mod Kept
pub mod Clones
pub mod Contents
pub mod Course
pub mod Rounds
pub mod Guard
pub mod Fixed
pub mod Meta
pub mod Stored
use fos_next.Prelude.{
  ℕ, zero, suc, ◌+◌, Bool, true, false, not, ◌&&◌, List, [], ◌∷◌, ◌++◌, Option, none, some, Bytes,
  codes, if◌then◌else◌, Result, ok, err, length,
}
use fos_next.Strings.{equal}
use fos_next.Strconv.{itoa}
use fos_next.Wire.{HandshakeResponse, ImageMetaRequest, PartMeta, Codec}
use fos_next.World.{
  Syscall, Reply, stream, Env, Act, pure, fail, attempt, branch, match_result, match_option, ◌>>=◌,
  ◌>>◌,
}
use fos_next.Api.{Client, upload_part, set_image_meta}
use fos_next.Disk
use fos_next.Partition
use fos_next.Imaging
use fos_next.Actions.Parts.{report, failing, progress_fn, detect_filesystem, read_partition_uuid}
use fos_next.Actions.Deploy.{is_resizable}

-- a list with one more element at its end if the test passes
unfoldable pub note_fixed : Bool → List ℕ → ℕ → List ℕ
note_fixed true fixed part = fixed ++ part ∷ []
note_fixed false fixed part = fixed

-- whether `Shrink` leaves the partition at its full size
unfoldable pub not_shrunk : Result Bool → Bool
not_shrunk (ok shrunk) = not shrunk
not_shrunk (err e) = true

module _ (env : Env) (client : Client) (resp : HandshakeResponse) where
  -- the cleaning and shrinking of a partition of a resizable image; the result says that it stays
  -- at its full size
  unfoldable pub prepare : Bytes → Bytes → Act Bool
  prepare dev fs = do
    branch (equal fs (codes "ntfs")) (Imaging.clean_ntfs env dev) (pure tt)
    branch (Imaging.can_shrink fs) (do r ← attempt (Imaging.shrink env dev fs); pure (not_shrunk r))
        (pure true)

  -- a swap partition: its UUID is saved in place of its content
  unfoldable pub upload_sentinel : ℕ → Bytes → Act (Unit {0})
  upload_sentinel part_num dev = do
    uuid ← read_partition_uuid env dev
    let sentinel = env.codec.marshal_meta (record { type = codes "swap"; uuid = uuid })
    failing (codes "swap sentinel upload failed for part " ++ itoa part_num ++ codes ": ")
        (upload_part env client resp.image_id part_num (stream sentinel none))

  -- the clone of a partition and its upload
  unfoldable pub upload_image : ℕ → Bytes → Bytes → Act (Unit {0})
  upload_image part_num dev fs = do
    cloned ← Imaging.clone env dev fs (progress_fn env client resp)
    failing (codes "upload failed for part " ++ itoa part_num ++ codes ": ")
        (upload_part env client resp.image_id part_num (stream cloned.out cloned.fault))
    match_option cloned.fault
        (λ e. fail (codes "partclone failed for part " ++ itoa part_num ++ codes ": " ++ e))
        (pure tt)

  -- the refusal of an encrypted volume
  unfoldable pub refuse_bitlocker : ℕ → Bytes → Bytes → Act (Unit {0})
  refuse_bitlocker part_num dev fs =
      branch (equal fs (codes "ntfs"))
        (do
          encrypted ← Imaging.is_bitlocker_encrypted env dev
          branch encrypted
              (fail (
                codes "Bitlocker encryption detected on partition "
                ++ itoa part_num
                ++ codes " ("
                ++ dev
                ++ codes ") — cannot capture encrypted volume"))
              (pure tt))
        (pure tt)

  -- one round of the loop: the fixed-size partitions so far, and with this one
  unfoldable pub capture_part : ℕ → Bytes → List ℕ → Act (List ℕ)
  capture_part part_num dev fixed = do
    fs ← detect_filesystem env dev
    refuse_bitlocker part_num dev fs
    branch (equal fs (codes "swap")) (upload_sentinel part_num dev >> pure fixed) (do
      full ← branch (is_resizable resp) (prepare dev fs) (pure false)
      upload_image part_num dev fs
      pure (note_fixed full fixed part_num))

  -- the loop over the partitions that were found, the next of which is number `part_num`
  unfoldable pub capture_parts : List Bytes → ℕ → List ℕ → Act (List ℕ)
  capture_parts [] part_num fixed = pure fixed
  capture_parts (dev ∷ devs) part_num fixed = do
    more ← capture_part part_num dev fixed
    capture_parts devs (part_num + 1) more

  -- the part of `Capture` in front of its report
  unfoldable pub capture_steps : Act (Unit {0})
  capture_steps = do
    target_disk ← failing (codes "disk detection failed: ") (Disk.primary env)
    table ← failing (codes "partition table backup failed: ") (Partition.backup env target_disk)
    failing (codes "partition table upload failed: ")
        (upload_part env client resp.image_id 0 (stream table none))
    parts ← Disk.discover_partitions env target_disk
    fixed ← capture_parts parts 1 []
    attempt (
        set_image_meta env client (record {
          task_id = resp.task_id;
          image_id = resp.image_id;
          image_type = if is_resizable resp then codes "resizable" else codes "fixed";
          fixed_size_partitions = fixed;
          part_count = length parts;
        }))
    pure tt

  -- `Capture`
  unfoldable pub capture : Act (Unit {0})
  capture = report env client resp capture_steps
