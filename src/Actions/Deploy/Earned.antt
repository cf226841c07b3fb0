-- ===== src/Actions/Deploy/Earned.antt =====
-- What the verdict of `Deploy` of agent/internal/actions/actions.go says of the work in front of it.
use fos_next.Prelude.{true, ◌≡◌}
use fos_next.Wire.{HandshakeResponse}
use fos_next.World.{History, Env}
use fos_next.Api.{Client}
use fos_next.Actions.Parts.Verdict.{Reported}
use fos_next.Actions.Deploy.{deploy_steps, deploy}
use fos_next.Actions.Deploy.Restored.{Deployed}

-- A run of `Deploy` from `h` has reported how its steps ended, and a claim of success is earned.
pub record Earned (env : Env) (client : Client) (resp : HandshakeResponse) (h : History)
    : Type 0 where
  pub reported : Reported client resp (deploy_steps env client resp h) (deploy env client resp h)
  pub earned :
      reported.request.success ≡ true
      → Deployed env client resp h (deploy_steps env client resp h).1
