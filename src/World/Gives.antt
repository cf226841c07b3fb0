-- ===== src/World/Gives.antt =====
-- What holds of every value that an action returns, and the inversion of a bind.
use fos_next.Prelude.{
  sym, ap, refl, Option, none, some, Bool, true, false, Bytes, ok, ◌≡◌, ◌∙◌, subst, inl, inr,
  Result-cases,
}
use fos_next.World.{
  History, Act, pure, fail, attempt, match_result, match_option, wrapped, ◌>>=◌, branch, deferred,
}

pub record Gives {A : Type 0} (P : A → Type 0) (m : Act A) : Type 0 where
  pub at : (h : History) (a : A) → (m h).0 ≡ ok a → P a

pub ok-injective : {A : Type 0} {a b : A} → ok a ≡ ok b → a ≡ b
ok-injective e = cc

-- A bind that returns a value runs its second part on the value of the first.
pub bind-eq-ok :
    {A B : Type 0} (m : Act A) (f : A → Act B) (h : History) {b : B}
    → ((m >>= f) h).0 ≡ ok b
    → (a : A) × ((m h).0 ≡ ok a) × ((m >>= f) h ≡ f a (m h).1)
unfolding ◌>>=◌
bind-eq-ok m f h e = elim (Result-cases (m h).0) [
  | inl (a, q) ↦ (a, q, rw q)
  | inr (x, q) ↦ absurd (cc (rw q at e))
]

module _ {A : Type 0} {P : A → Type 0} where
  pub Gives-pure : (a : A) → P a → Gives P (pure a)
  unfolding pure
  Gives-pure a p = record { at = λ h b e. subst P (ok-injective e) p }

  pub Gives-branch : (b : Bool) (m n : Act A) → Gives P m → Gives P n → Gives P (branch b m n)
  unfolding branch
  Gives-branch true m n km kn = km
  Gives-branch false m n km kn = kn

module _ {A B : Type 0} {P : B → Type 0} where
  pub Gives-bind : (m : Act A) (f : A → Act B) → ((a : A) → Gives P (f a)) → Gives P (m >>= f)
  Gives-bind m f kf = record {
    at = λ h b e. let (a, q, w) = bind-eq-ok m f h e in (kf a).at (m h).1 b (rw w at e);
  }

  pub Gives-deferred : (d : Act A) (m : Act B) → Gives P m → Gives P (deferred d m)
  unfolding deferred
  Gives-deferred d m km = record { at = λ h b e. km.at h b e }

pub ruleset gives_rules = (Gives-pure, Gives-branch, Gives-bind, Gives-deferred)

-- A step that adds a context to its error returns what it wraps, and leaves the same history.
pub wrapped-eq-ok :
    {A : Type 0} (context : Bytes) (m : Act A) (h : History) {a : A}
    → (wrapped context m h).0 ≡ ok a
    → ((m h).0 ≡ ok a) × ((wrapped context m h).1 ≡ (m h).1)
unfolding wrapped ◌>>=◌ attempt match_result pure fail
wrapped-eq-ok context m h e = elim (Result-cases (m h).0) [
  | inl (b, q) ↦ (q ∙ (rw q at e), rw q)
  | inr (x, q) ↦ absurd (cc (rw q at e))
]

-- A check that fails on an error, and returned nothing, saw none, and left the history as it is.
pub match_option-eq-ok :
    (o : Option Bytes) (f : Bytes → Bytes) (g : History)
    → (match_option o (λ e. fail (f e)) (pure tt) g).0 ≡ ok tt
    → (o ≡ none) × ((match_option o (λ e. fail (f e)) (pure tt) g).1 ≡ g)
unfolding match_option fail pure
match_option-eq-ok none f g e = (refl, refl)
match_option-eq-ok (some x) f g e = absurd (cc e)

module _ {A : Type 0} where
  -- An action that returns a value, with the history that it leaves.
  pub returns : (m : Act A) (h : History) {a : A} → (m h).0 ≡ ok a → m h ≡ (ok a, (m h).1)
  returns m h e = ap (λ r. (r, (m h).1)) e

  pub wrapped-returns :
      (context : Bytes) (m : Act A) (h g : History) {a : A}
      → wrapped context m h ≡ (ok a, g)
      → m h ≡ (ok a, g)
  wrapped-returns context m h g {a} e =
      let (q, s) = wrapped-eq-ok context m h (ap (λ r. r.0) e) in
      returns m h q ∙ ap (λ (k : History). (ok a, k)) (sym s ∙ ap (λ r. r.1) e)

pub bind-returns :
    {A B : Type 0} (m : Act A) (f : A → Act B) (h final : History) {b : B}
    → (m >>= f) h ≡ (ok b, final)
    → (a : A) × (g : History) × (m h ≡ (ok a, g)) × (f a g ≡ (ok b, final))
bind-returns m f h final e =
    let (a, q, w) = bind-eq-ok m f h (ap (λ r. r.0) e) in (a, (m h).1, returns m h q, sym w ∙ e)
