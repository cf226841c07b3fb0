-- ===== src/World/Ran.antt =====
-- A call of the system that was made between two histories, with its reply.
use fos_next.Prelude.{◌∷◌, ◌≡◌, refl, subst, Result}
use fos_next.World.{Syscall, Event, call, Reply, History, Env, Act}
use fos_next.World.Adds.{Emits, nothing, Emits-trans, Emits-weaken, Adds}

-- nothing in particular
abbrev pub Any : {A : Type 0} → A → Type 0
Any a = Unit {0}

pub record Ran (env : Env) (c : Syscall) (r : Reply) (start final : History) : Type 0 where
  pub at : History
  pub since : Emits Any start at
  pub answered : env.answer at c ≡ r
  pub behind : Emits Any (call c ∷ at) final

-- Everything that an action adds is something.
pub anything :
    {Q : Event → Type 0} {A : Type 0} (m : Act A) (h : History) → Adds Q m → Emits Any h (m h).1
anything m h k = Emits-weaken (λ _ _. tt) (k.at h)

pub anything-until :
    {Q : Event → Type 0} {A : Type 0} (m : Act A)
    → Adds Q m
    → {h g : History} {r : Result A} → m h ≡ (r, g)
    → Emits Any h g
anything-until m k {h} e = subst (λ x. Emits Any h x.1) e (anything m h k)

module _ {env : Env} {c : Syscall} {r : Reply} where
  pub Ran-within :
      {start h h' final : History}
      → Emits Any start h
      → Ran env c r h h'
      → Emits Any h' final
      → Ran env c r start final
  Ran-within e p e' = record {
    at = p.at;
    since = Emits-trans e p.since;
    answered = p.answered;
    behind = Emits-trans p.behind e';
  }

pub Ran-now : {env : Env} (c : Syscall) (g : History) → Ran env c (env.answer g c) g (call c ∷ g)
Ran-now c g = record { at = g; since = nothing; answered = refl; behind = nothing }
