-- ===== src/Actions/Parts.antt =====
-- What the actions of agent/internal/actions share: reports to the server, the calls of blkid and
-- mkswap. Each early `return reportFail(..., "<context>: "+err.Error())` of an action raises its
-- message here, and `report` hands it to `reportFail`.
pub mod Events
pub mod Verdict
pub mod Claims
use fos_next.Prelude.{ℤ, pos, Bool, true, false, List, [], ◌∷◌, ◌++◌, Bytes, codes, if◌then◌else◌}
use fos_next.Strings.{trim_space}
use fos_next.Wire.{HandshakeResponse, ProgressRequest, CompleteRequest}
use fos_next.World.{
  Env, Act, pure, fail, attempt, match_result, ◌>>=◌, ◌>>◌, combined_output, output, expect,
  wrapped,
}
use fos_next.Api.{Client, send_complete, report_progress}
use fos_next.Imaging.Status.{ProgressFunc}

abbrev pub success_of : HandshakeResponse → CompleteRequest
success_of resp = record { task_id = resp.task_id; success = true; message = [] }

abbrev pub failure_of : HandshakeResponse → Bytes → CompleteRequest
failure_of resp msg = record { task_id = resp.task_id; success = false; message = msg }

-- a step whose error makes the action report failure under that context
unfoldable pub failing : {A : Type 0} → Bytes → Act A → Act A
failing = wrapped

module _ (env : Env) where
  -- `reportFail`: the error of the report is dropped, and the action returns nil
  unfoldable pub report_fail : Client → HandshakeResponse → Bytes → Act (Unit {0})
  report_fail client resp msg = attempt (send_complete env client (failure_of resp msg)) >> pure tt

  -- an action's steps, and then its report of success or failure
  unfoldable pub report : Client → HandshakeResponse → Act (Unit {0}) → Act (Unit {0})
  report client resp steps = do
    r ← attempt steps
    match_result r (λ _. send_complete env client (success_of resp)) (report_fail client resp)

  -- `makeProgressFn`; `transferred` is 0 when it is made, and nothing writes to it
  unfoldable pub progress_fn : Client → HandshakeResponse → ProgressFunc
  progress_fn client resp pct bpm =
      attempt (
        report_progress env client (record {
          task_id = resp.task_id;
          percent = pct;
          bits_per_minute = bpm;
          bytes_transferred = pos 0;
        }))
      >> pure tt

  -- `detectFilesystem`
  unfoldable pub detect_filesystem : Bytes → Act Bytes
  detect_filesystem dev = do
    r ← attempt (
        output env (codes "blkid")
          (codes "-s" ∷ codes "TYPE" ∷ codes "-o" ∷ codes "value" ∷ dev ∷ []))
    match_result r (λ out. pure (trim_space out)) (λ _. pure (codes "dd"))

  -- `readPartitionUUID`
  unfoldable pub read_partition_uuid : Bytes → Act Bytes
  read_partition_uuid dev = do
    r ← attempt (
        output env (codes "blkid")
          (codes "-s" ∷ codes "UUID" ∷ codes "-o" ∷ codes "value" ∷ dev ∷ []))
    match_result r (λ out. pure (trim_space out)) (λ _. pure [])

  unfoldable pub mkswap_args : Bytes → Bytes → List Bytes
  mkswap_args dev [] = dev ∷ []
  mkswap_args dev (c ∷ uuid) = codes "-U" ∷ (c ∷ uuid) ∷ dev ∷ []

  -- `makeSwap`
  unfoldable pub make_swap : Bytes → Bytes → Act (Unit {0})
  make_swap dev uuid = do
    r ← combined_output env (codes "mkswap") (mkswap_args dev uuid)
    expect (codes "mkswap " ++ dev ++ codes ": ") r
