-- ===== src/Actions/Success.antt =====
-- What it means that `Capture` and `Deploy` of agent/internal/actions/actions.go report success.
use fos_next.Prelude.{ℕ, ◌+◌, ◌≤◌, ◌<◌, pos_part, Bool, true, Bytes, ok, ◌≡◌, ◌≢◌, refl, ◌∙◌}
use fos_next.Wire.{HandshakeResponse, CompleteRequest}
use fos_next.World.{Event, History, Env}
use fos_next.World.Adds.{Emits-weaken}
use fos_next.Strings.{equal}
use fos_next.Api.{Client, upload_request, download_request, post_request}
use fos_next.Disk
use fos_next.Disk.{partition_device}
use fos_next.Disk.Numbers.{Settled}
use fos_next.Actions.Parts.Claims.{claims, Modest, Reported-ok}
use fos_next.Actions.Parts.Verdict.{VerdictEvent, paused, verdict}
use fos_next.Actions.Capture.{capture, capture_steps}
use fos_next.Actions.Capture.Kept.{kept, Elsewhere, Emits-kept, post-Elsewhere}
use fos_next.Actions.Capture.Requests as Capture
use fos_next.Actions.Capture.Requests.{capture-Reported, capture_steps-StepEvent}
use fos_next.Actions.Deploy.{deploy, deploy_steps}
use fos_next.Actions.Deploy.Contents.{Serves, Drains}
use fos_next.Actions.Deploy.Requests as Deploy
use fos_next.Actions.Deploy.Requests.{deploy-Reported, deploy_steps-StepEvent}
use fos_next.Actions.RoundTrip.{
  ReadsSwap, Braced, TextUuid, Unbraced, Transferred, Transferred-later, TableTransferred,
  TableTransferred-later, deploy_steps-capture_steps,
}

module _ (env : Env) (client : Client) (resp : HandshakeResponse) (h : History) where
  deploy-Modest : {e : Event} → Deploy.StepEvent client resp e → Modest e
  unfolding download_request post_request equal
  deploy-Modest (Deploy.local c) = refl
  deploy-Modest (Deploy.download part le) = refl
  deploy-Modest (Deploy.progressed p t b) = refl

  capture-Modest : {e : Event} → Capture.StepEvent client resp e → Modest e
  unfolding upload_request post_request equal
  capture-Modest (Capture.local c) = refl
  capture-Modest (Capture.upload part body) = refl
  capture-Modest (Capture.progressed p t b) = refl
  capture-Modest (Capture.described m t i) = refl

  -- `Deploy` reports success only if its steps returned no error.
  deploy-claims :
      claims (deploy env client resp h).1 ≢ claims h → (deploy_steps env client resp h).0 ≡ ok tt
  deploy-claims =
      Reported-ok h (deploy-Reported env client resp h)
        (Emits-weaken (λ e q. deploy-Modest q) ((deploy_steps-StepEvent env client resp).at h))

  -- `Capture` reports success only if its steps returned no error.
  capture-claims :
      claims (capture env client resp h).1 ≢ claims h → (capture_steps env client resp h).0 ≡ ok tt
  capture-claims =
      Reported-ok h (capture-Reported env client resp h)
        (Emits-weaken (λ e q. capture-Modest q) ((capture_steps-StepEvent env client resp).at h))

  verdict-Elsewhere :
      (n : ℕ) {req : CompleteRequest} {e : Event}
      → VerdictEvent client req e
      → Elsewhere client resp.image_id n e
  verdict-Elsewhere n (paused d) g = refl
  verdict-Elsewhere n verdict g = post-Elsewhere client resp.image_id n _ _ _ g

  -- the report leaves the parts of the image as they are
  pub kept-capture :
      (n : ℕ)
      → kept client resp.image_id n (capture env client resp h).1
        ≡ kept client resp.image_id n (capture_steps env client resp h).1
  kept-capture n =
      Emits-kept client resp.image_id n
        (Emits-weaken (λ e q. verdict-Elsewhere n q) (capture-Reported env client resp h).behind)

module _ (env env' : Env) (client client' : Client) (resp resp' : HandshakeResponse)
    (h h' : History) (disk disk' : Bytes) (exists : ℕ → Bool) where
  -- If `Capture` reports success to the server, and then `Deploy` does, perhaps on another machine,
  -- then for each number up to the number of parts, at most 128, up to which the captured disk has all
  -- partitions: the partition table that `Backup` returned has been restored to the deployed disk, and
  -- the partition of that number of the deployed disk got what was captured of the partition of the
  -- same number: the run of `Deploy` had partclone restore exactly what partclone had written of it in
  -- the run of `Capture`, or had mkswap make it a swap partition with the UUID that blkid had printed
  -- in that run. The conditions: a download that the server answers with a status of success is the
  -- last upload of that part, unless it breaks off; partclone reads all of its input; which partitions
  -- the captured disk has does not change meanwhile; `encoding/json` reads a swap sentinel with an ASCII
  -- UUID back as it was written and writes objects with a brace in front; the UUID of the captured
  -- partition is ASCII, and no image of it begins with a brace.
  pub deploy-capture :
      claims (capture env client resp h).1 ≢ claims h
      → (Disk.primary env h).0 ≡ ok disk
      → Settled env disk exists
      → Serves env' client' resp'.image_id
          (λ k. kept client resp.image_id k (capture env client resp h).1)
      → Drains env'
      → claims (deploy env' client' resp' h').1 ≢ claims h'
      → (Disk.primary env' h').0 ≡ ok disk'
      → ReadsSwap env.codec env'.codec
      → Braced env.codec
      → (d : ℕ) → d < 128
      → ((n : ℕ) → 1 ≤ n → n ≤ 1 + d → exists n ≡ true)
      → 1 + d ≤ pos_part resp'.part_count
      → TextUuid env (partition_device disk (1 + d))
      → Unbraced env (partition_device disk (1 + d))
      → TableTransferred env env' disk disk' h h' (deploy env' client' resp' h').1
        × Transferred env env'
            (partition_device disk (1 + d))
            (partition_device disk' (1 + d))
            h
            (capture env client resp h).1
            h'
            (deploy env' client' resp' h').1
  deploy-capture told chosen settled serves drains told' chosen' law braced d lt there le text
        unbraced =
      let reported = Emits-weaken (λ _ _. tt) (capture-Reported env client resp h).behind in
      let reported' = Emits-weaken (λ _ _. tt) (deploy-Reported env' client' resp' h').behind in
      let (table, part) =
        deploy_steps-capture_steps env env' client client' resp resp' h h' disk disk' exists
          (capture-claims env client resp h told) chosen settled
          (λ g k b body q. serves g k b body (kept-capture env client resp h k ∙ q)) drains
          (deploy-claims env' client' resp' h' told') chosen' law braced d lt there le text
          unbraced in
      (TableTransferred-later table reported', Transferred-later part reported reported')
