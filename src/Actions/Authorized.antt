-- ===== src/Actions/Authorized.antt =====
-- The boot token on the requests of `Dispatch` of agent/internal/actions/actions.go.
use fos_next.Prelude.{ℕ, true, Bytes, In, here, there}
use fos_next.Wire.{HandshakeResponse, Payload}
use fos_next.World.{Syscall, Event, call, http, Request, Body, Env, Act}
use fos_next.World.Adds.{Adds, Adds-weaken, adds_rules}
use fos_next.Api.{Client, authorization, post_request, download_request, upload_request}
use fos_next.Actions.{wipe, syscall_exec, debug, dispatch}
use fos_next.Actions.Ending.{LocalEvent, wipe_steps-LocalEvent}
use fos_next.Actions.Parts.{report, report_fail}
use fos_next.Actions.Parts.Events.{send_complete-Adds}
use fos_next.Actions.Deploy.{deploy}
use fos_next.Actions.Deploy.Requests as Deploy
use fos_next.Actions.Capture.{capture}
use fos_next.Actions.Capture.Requests as Capture

-- A call of the system, or a request whose headers hold the token of the handshake.
pub data Authorized (client : Client) : Event → Type 0 where
  local : (c : Syscall) → Authorized client (call c)
  bearing : (r : Request) → In (authorization client) r.headers → Authorized client (http r)

module _ (env : Env) (client : Client) (resp : HandshakeResponse) where
  post_bears :
      (path : Bytes) (body : Payload)
      → Authorized client (http (post_request client path body true))
  unfolding post_request
  post_bears path body = bearing _ (there here)

  download_bears :
      (image_id : Bytes) (part start : ℕ)
      → Authorized client (http (download_request client image_id part start))
  unfolding download_request
  download_bears image_id part start = bearing _ here

  upload_bears :
      (image_id : Bytes) (part : ℕ) (body : Body)
      → Authorized client (http (upload_request client image_id part body))
  unfolding upload_request
  upload_bears image_id part body = bearing _ here

  deploy_event : (e : Event) → Deploy.StepEvent client resp e → Authorized client e
  deploy_event e (Deploy.local c) = local c
  deploy_event e (Deploy.download part le) = download_bears _ _ _
  deploy_event e (Deploy.progressed p t b) = post_bears _ _

  capture_event : (e : Event) → Capture.StepEvent client resp e → Authorized client e
  capture_event e (Capture.local c) = local c
  capture_event e (Capture.upload part body) = upload_bears _ _ _
  capture_event e (Capture.progressed p t b) = post_bears _ _
  capture_event e (Capture.described m t i) = post_bears _ _

  wipe_event : (e : Event) → LocalEvent e → Authorized client e
  wipe_event e (LocalEvent.local c) = local c

  report_fail-Authorized :
      (msg : Bytes) → Adds (Authorized client) (report_fail env client resp msg)
  unfolding report_fail
  report_fail-Authorized msg = search (adds_rules, send_complete-Adds, local, post_bears)

  report-Authorized :
      (steps : Act (Unit {0}))
      → Adds (Authorized client) steps
      → Adds (Authorized client) (report env client resp steps)
  unfolding report
  report-Authorized steps k =
      search (adds_rules, send_complete-Adds, local, post_bears, report_fail-Authorized)

  deploy-Authorized : Adds (Authorized client) (deploy env client resp)
  unfolding deploy
  deploy-Authorized =
      report-Authorized _
        (Adds-weaken _ deploy_event (Deploy.deploy_steps-StepEvent env client resp))

  capture-Authorized : Adds (Authorized client) (capture env client resp)
  unfolding capture
  capture-Authorized =
      report-Authorized _
        (Adds-weaken _ capture_event (Capture.capture_steps-StepEvent env client resp))

  wipe-Authorized : Adds (Authorized client) (wipe env client resp)
  unfolding wipe
  wipe-Authorized = report-Authorized _ (Adds-weaken _ wipe_event (wipe_steps-LocalEvent env))

  debug-Authorized : Adds (Authorized client) (debug env)
  unfolding debug syscall_exec
  debug-Authorized = search (adds_rules, local) depth 8

  -- Whatever action `Dispatch` runs, each request that it sends carries the token of the client in its
  -- headers, the reports of progress and of the verdict included.
  pub dispatch-Authorized : Adds (Authorized client) (dispatch env client resp)
  unfolding dispatch
  dispatch-Authorized =
      search (adds_rules, deploy-Authorized, capture-Authorized, wipe-Authorized, debug-Authorized)
