-- ===== src/Actions/Parts/Claims.antt =====
-- The reports of success that the server gets from the actions of agent/internal/actions/actions.go.
use fos_next.Prelude.{
  ℕ, ◌+◌, Bool, false, [], ◌∷◌, Result, ok, ◌≡◌, ◌≢◌, refl, ◌∙◌, inl, inr, Bool-cases,
  if◌then◌else◌, codes, ◌&&◌,
}
use fos_next.Strings.{equal}
use fos_next.Wire.{HandshakeResponse, CompleteRequest, complete}
use fos_next.World.{Event, call, http, Body, json, History}
use fos_next.World.Adds.{Emits, nothing, event, Emits-weaken}
use fos_next.Api.{Client, post_request}
use fos_next.Actions.Parts.Verdict.{VerdictEvent, paused, verdict, Reported}

-- a body that reports success
abbrev pub says_success : Body → Bool
says_success (json (complete req)) = req.success
says_success _ = false

abbrev pub says_success? : Event → Bool
says_success? (call c) = false
says_success? (http r) = equal r.method (codes "POST") && says_success r.body

-- how often success was reported
abbrev pub claims : History → ℕ
claims [] = 0
claims (e ∷ h) = let rest = claims h in if says_success? e then 1 + rest else rest

-- an event that reports no success
abbrev pub Modest : Event → Type 0
Modest e = says_success? e ≡ false

Emits-claims : {h h' : History} → Emits Modest h h' → claims h' ≡ claims h
Emits-claims nothing = refl
Emits-claims (event q k) = rw q (Emits-claims k)

verdict-Modest :
    (client : Client) (req : CompleteRequest) {e : Event}
    → req.success ≡ false
    → VerdictEvent client req e
    → Modest e
unfolding post_request equal
verdict-Modest client req n (paused d) = refl
verdict-Modest client req n verdict = n

module _ {client : Client} {resp : HandshakeResponse}
    {steps final : Result (Unit {0}) × History} where
  -- An action reports success only if its steps returned no error.
  pub Reported-ok :
      (h : History)
      → Reported client resp steps final
      → Emits Modest h steps.1
      → claims final.1 ≢ claims h
      → steps.0 ≡ ok tt
  Reported-ok h r modest more = elim (Bool-cases r.request.success) [
    | inl y ↦ r.honest.0 y
    | inr n ↦
        let silent : (e : Event) → VerdictEvent client r.request e → Modest e =
          (λ e v. verdict-Modest client r.request n v) in
        absurd (more (Emits-claims (Emits-weaken silent r.behind) ∙ Emits-claims modest))
  ]
