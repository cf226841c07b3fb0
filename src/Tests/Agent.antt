-- ===== src/Tests/Agent.antt =====
-- Runs of the actions of agent/internal/actions in a world where every command succeeds.
use fos_next.Prelude.{[]}
use fos_next.World.Adds.{Adds}
use fos_next.Actions.Ending.{WipeReported, wipe-WipeReported}
use fos_next.Actions.Deploy.{deploy_steps}
use fos_next.Actions.Deploy.Requests as Deploy
use fos_next.Actions.Deploy.Requests.{deploy_steps-StepEvent}
use fos_next.Actions.Deploy.Earned.{Earned}
use fos_next.Actions.Capture.{capture_steps}
use fos_next.Actions.Capture.Requests as Capture
use fos_next.Actions.Capture.Requests.{capture_steps-StepEvent}
use fos_next.Tests.{demo_env, demo_client, demo_resp}

deploy_steps-StepEvent_example :
    Adds (Deploy.StepEvent demo_client demo_resp) (deploy_steps demo_env demo_client demo_resp)
deploy_steps-StepEvent_example = deploy_steps-StepEvent demo_env demo_client demo_resp

capture_steps-StepEvent_example :
    Adds (Capture.StepEvent demo_client demo_resp) (capture_steps demo_env demo_client demo_resp)
capture_steps-StepEvent_example = capture_steps-StepEvent demo_env demo_client demo_resp

wipe-WipeReported_example : WipeReported demo_env demo_client demo_resp []
wipe-WipeReported_example = wipe-WipeReported demo_env demo_client demo_resp []
