-- ===== src/Actions.antt =====
-- agent/internal/actions/actions.go and sys.go: the actions that a handshake asks for.
pub mod RoundTrip
pub mod Success
pub mod Parts
pub mod Deploy
pub mod Capture
pub mod Ending
pub mod Authorized
pub mod Display
pub mod ByteReader
use fos_next.Prelude.{
  ℕ, ℤ, pos, Bool, true, false, List, [], ◌∷◌, ◌++◌, Option, none, some, Bytes, codes,
  if◌then◌else◌, Result, ok, err,
}
use fos_next.Strings.{equal}
use fos_next.Wire.{HandshakeResponse, RegisterRequest, CompleteRequest}
use fos_next.World.{
  Syscall, exec_replace, look_path, sleep, Env, Act, pure, fail, attempt, branch, match_result,
  match_option, ◌>>=◌, ◌>>◌, sys, combined_output, try,
}
use fos_next.Api.{Client, send_complete, send_register}
use fos_next.Inventory.{Info, collect}
use fos_next.Disk
use fos_next.Partition
use fos_next.Actions.Parts.{report, report_fail, failing}
use fos_next.Actions.Deploy.{deploy}
use fos_next.Actions.Capture.{capture}

-- How `Register` ends: it returns an error or nil, or panics.
pub data Outcome : Type 0 where
  finished : Option Bytes → Outcome
  panicked : Outcome

-- the pointer beside an error that Go returns: `none` for nil
unfoldable pub pointer : {A : Type 0} → Result A → Option A
pointer (ok a) = some a
pointer (err e) = none

module _ (env : Env) where
  -- the part of `Wipe` in front of its report
  unfoldable pub wipe_steps : Act (Unit {0})
  wipe_steps = do
    target_disk ← failing (codes "disk detection failed: ") (Disk.primary env)
    failing (codes "wipe failed: ") (Partition.wipe env target_disk 1)

  -- `Wipe`
  unfoldable pub wipe : Client → HandshakeResponse → Act (Unit {0})
  wipe client resp = report env client resp wipe_steps

  -- `syscallExec`
  unfoldable pub syscall_exec : Bytes → Act (Unit {0})
  syscall_exec path =
      try env (
        exec_replace path (path ∷ []) (
          codes "TERM=linux"
          ∷ codes "HOME=/root"
          ∷ codes "PATH=/sbin:/bin:/usr/sbin:/usr/bin"
          ∷ []))
      >> pure tt

  -- `Debug`: the shell replaces the process, which the model counts as a return of nil
  unfoldable pub debug : Act (Unit {0})
  debug = do
    r ← attempt (try env (look_path (codes "ash")))
    match_result r syscall_exec (λ _. syscall_exec (codes "/bin/sh"))

  -- `Dispatch`
  unfoldable pub dispatch : Client → HandshakeResponse → Act (Unit {0})
  dispatch client resp = branch (equal resp.action (codes "deploy")) (deploy env client resp) (
      branch (equal resp.action (codes "capture")) (capture env client resp)
        (branch (equal resp.action (codes "wipe")) (wipe client resp) debug))

  -- the request of `Register`, and what it does when the server has accepted it
  unfoldable pub submit : Client → RegisterRequest → Act Outcome
  submit client req = do
    r ← attempt (send_register env client req)
    match_result r
        (λ _. do
          sys env (sleep 5000)
          combined_output env (codes "poweroff") []
          pure (finished none))
        (λ e. pure (finished (some e)))

  -- `Register`. An error of `Collect` is only logged, and the request reads the fields of the pointer.
  unfoldable pub register : Client → List Bytes → Act Outcome
  register client macs = do
    collected ← attempt (collect env)
    match_option (pointer collected)
        (λ inv. submit client (record {
          macs = macs;
          cpu_model = inv.cpu_model;
          cpu_cores = inv.cpu_cores;
          ram_bytes = inv.ram_bytes;
          disk_bytes = inv.disk_bytes;
          uuid = inv.uuid;
        }))
        (pure panicked)
