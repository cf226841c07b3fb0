-- ===== src/Boot.antt =====
-- `main` and `reorder` of agent/cmd/fos-agent/main.go. The log lines and the signal handler are left
-- out.
pub mod Reorder
pub mod Session
pub mod Handover
use fos_next.Prelude.{
  ℕ, Bool, true, false, not, ◌&&◌, List, [], ◌∷◌, Option, none, some, Bytes, codes, map,
  if◌then◌else◌, Result, ok, err,
}
use fos_next.Strings.{equal}
use fos_next.Wire.{HandshakeResponse}
use fos_next.World.{
  open_write, read_file, sys, Env, Act, pure, fail, attempt, branch, match_result, match_option,
  ◌>>=◌, ◌>>◌,
}
use fos_next.Cmdline
use fos_next.Cmdline.{Params}
use fos_next.Netup
use fos_next.Netup.{Nic}
use fos_next.Inventory.{macs_of}
use fos_next.Api
use fos_next.Api.{Client, shake_hands}
use fos_next.Api.Logs.{RemoteHandler, set_client}
use fos_next.Actions
use fos_next.Actions.{Outcome, finished, panicked}
use fos_next.Boot.Reorder.{reorder}

-- How the process ends: `main` returns or a shell has replaced the process, `halt(1)` exits, or it
-- crashes.
pub data Exit : Type 0 where
  returned : Exit
  halted : Exit
  crashed : Exit

-- `halt(1)`, which logs and exits
unfoldable pub halt : Act Exit
halt = pure halted

-- an error of `Register` is only logged
unfoldable pub after_register : Outcome → Exit
after_register (finished e) = returned
after_register panicked = crashed

-- the action of the response, or the one that the command line sets
unfoldable pub override : Params → HandshakeResponse → HandshakeResponse
override params resp =
    if not (equal params.fog_action []) && not (equal params.fog_action resp.action)
    then record resp { action = params.fog_action }
    else resp

-- what `main` does behind a handshake
unfoldable pub act_on : Env → Client → List Bytes → HandshakeResponse → Act Exit
act_on env client macs resp =
    branch (equal resp.action (codes "register"))
      (do outcome ← Actions.register env client macs; pure (after_register outcome))
      (do
        r ← attempt (Actions.dispatch env client resp)
        match_result r (λ _. pure returned) (λ _. halt))

-- what a handshake makes of the log handler: it is connected if the server names a task
unfoldable pub connect_logs : Client → HandshakeResponse → RemoteHandler → RemoteHandler
connect_logs client resp h =
    if not (equal resp.task_id []) then set_client client resp.task_id h else h

-- `main` from the network on
unfoldable pub boot : Env → Params → Act Exit
boot env params = do
  up ← attempt (Netup.bring_up env)
  match_result up
      (λ primary_mac. do
        nics ← attempt (Netup.list_nics env)
        let macs = reorder (macs_of nics) primary_mac
        shaken ← attempt (shake_hands env (Api.new params.fog_server) (record { macs = macs }))
        match_result shaken (λ (resp, client). act_on env client macs (override params resp))
            (λ _. halt))
      (λ _. halt)

-- the writers of `setupLogging`: the console or else standard error, and the kernel's log if it opens
unfoldable pub writers : Option Bytes → Option Bytes → List Bytes
writers none none = codes "/dev/console" ∷ codes "/dev/kmsg" ∷ []
writers none (some e) = codes "/dev/console" ∷ []
writers (some e) none = codes "/dev/stderr" ∷ codes "/dev/kmsg" ∷ []
writers (some e) (some e') = codes "/dev/stderr" ∷ []

-- `setupLogging`, with the paths that the console handler writes to
unfoldable pub setup_logging : Env → Act (List Bytes)
setup_logging env = do
  console ← sys env (open_write (codes "/dev/console"))
  kmsg ← sys env (open_write (codes "/dev/kmsg"))
  pure (writers console.fault kmsg.fault)

-- `main`; the lines of the release file are only logged
unfoldable pub main : Env → Act Exit
main env = do
  setup_logging env
  sys env (read_file (codes "/etc/fos-release"))
  parsed ← attempt (Cmdline.parse env)
  match_result parsed (λ params. branch (equal params.fog_server []) halt (boot env params))
      (λ _. halt)
