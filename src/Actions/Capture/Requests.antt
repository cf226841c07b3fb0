-- ===== src/Actions/Capture/Requests.antt =====
-- What `Capture` of agent/internal/actions/actions.go asks of the server.
use fos_next.Prelude.{ℕ, ℤ, pos, true, List, Bytes, codes, ◌≡◌, refl}
use fos_next.Wire.{HandshakeResponse, ProgressRequest, ImageMetaRequest, progress, image_meta}
use fos_next.World.{Syscall, Event, call, http, Body, History, Env}
use fos_next.World.Adds.{Adds, adds_rules}
use fos_next.Api.{Client, post_request, upload_request, set_image_meta, no_out}
use fos_next.Api.Auth.{upload_part-Adds, post-Adds}
use fos_next.Disk.Calls.{primary-Adds, discover_partitions-Adds}
use fos_next.Partition.Calls.{backup-Adds}
use fos_next.Actions.Parts.{progress_fn}
use fos_next.Actions.Parts.Verdict.{Reported, report-Reported}
use fos_next.Actions.Parts.Events.{failing-Adds, progress_fn-Adds}
use fos_next.Actions.Capture.Calls.{capture_parts-Adds}
use fos_next.Actions.Capture.{capture_parts, capture_steps, capture}

-- The events of the steps of `Capture`: calls of the system, uploads of parts, progress reports that
-- claim no transferred bytes, and the metadata of the image.
pub data StepEvent (client : Client) (resp : HandshakeResponse) : Event → Type 0 where
  local : (c : Syscall) → StepEvent client resp (call c)
  upload :
      (part : ℕ) (body : Body)
      → StepEvent client resp (http (upload_request client resp.image_id part body))
  progressed :
      (p : ProgressRequest)
      → p.task_id ≡ resp.task_id
      → p.bytes_transferred ≡ pos 0
      → StepEvent client resp (http (post_request client (codes "/progress") (progress p) true))
  described :
      (m : ImageMetaRequest)
      → m.task_id ≡ resp.task_id
      → m.image_id ≡ resp.image_id
      → StepEvent client resp
          (http (post_request client (codes "/images/meta") (image_meta m) true))

module _ (env : Env) (client : Client) (resp : HandshakeResponse) where
  abbrev Q : Event → Type 0
  Q = StepEvent client resp

  reports : (pct bpm : ℤ) → Adds Q (progress_fn env client resp pct bpm)
  reports = progress_fn-Adds env local client resp (λ pct bpm. progressed _ refl refl)

  parts-Adds :
      (devs : List Bytes) (part : ℕ) (fixed : List ℕ)
      → Adds Q (capture_parts env client resp devs part fixed)
  parts-Adds devs part fixed =
      capture_parts-Adds env client resp local reports devs part fixed (λ j _ _ body. upload j body)

  describe-Adds :
      (m : ImageMetaRequest)
      → m.task_id ≡ resp.task_id
      → m.image_id ≡ resp.image_id
      → Adds Q (set_image_meta env client m)
  unfolding set_image_meta
  describe-Adds m t i = post-Adds env client _ _ _ no_out (described m t i) (λ d. local _)

  -- The steps of `Capture` in front of its report talk to the server only by uploads to the image of
  -- the handshake, by progress reports, which carry the task's id and 0 transferred bytes, and by
  -- the metadata of that image and task.
  pub capture_steps-StepEvent : Adds (StepEvent client resp) (capture_steps env client resp)
  unfolding capture_steps
  capture_steps-StepEvent =
      search
        (
          adds_rules, failing-Adds, primary-Adds, backup-Adds, upload_part-Adds, upload,
          discover_partitions-Adds, parts-Adds, describe-Adds, local,
        )
        depth 10

-- `Capture` ends with one verdict for its task, sent at least once and at most five times, and with
-- no other request; it is success exactly if the steps as a whole returned no error.
pub capture-Reported :
    (env : Env) (client : Client) (resp : HandshakeResponse) (h : History)
    → Reported client resp (capture_steps env client resp h) (capture env client resp h)
unfolding capture
capture-Reported env client resp h =
    report-Reported env client resp (capture_steps env client resp) h
