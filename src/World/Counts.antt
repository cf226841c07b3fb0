-- ===== src/World/Counts.antt =====
-- How many requests of a kind an action sends at most: a bound for each way to build an action.
use fos_next.Prelude.{
  ℕ, ◌+◌, ◌≤◌, Bool, false, [], ◌∷◌, ◌++◌, ◌≡◌, Bytes, Result, ok, err, arith, if◌then◌else◌,
}
use fos_next.World.{
  Syscall, Event, call, http, Request, History, Env, Act, pure, fail, attempt, ◌>>=◌, match_result,
  wrapped, send, lift,
}
use fos_next.World.Adds.{Emits, nothing, event, Adds, Adds-pure, Adds-fail}

module _ (asks : Request → Bool) where
  -- 1 for a request of the kind
  abbrev pub one : Request → ℕ
  one r = if asks r then 1 else 0

  -- The requests of the kind among the events of a history.
  abbrev pub counted : History → ℕ
  counted [] = 0
  counted (http r ∷ h) = one r + counted h
  counted (call c ∷ h) = counted h

  -- An event other than a request of the kind.
  pub data Quiet : Event → Type 0 where
    local : (c : Syscall) → Quiet (call c)
    short : (r : Request) → asks r ≡ false → Quiet (http r)

  pub record Counts {A : Type 0} (n : ℕ) (m : Act A) : Type 0 where
    pub at : (h : History) → counted (m h).1 ≤ counted h + n

module _ {asks : Request → Bool} where
  Emits-counted : {h h' : History} → Emits (Quiet asks) h h' → counted asks h' ≤ counted asks h
  Emits-counted nothing = omega arith
  Emits-counted (event (local c) k) = Emits-counted k
  Emits-counted (event (short r q) k) = rw q (omega (arith, Emits-counted k))

  module _ {A : Type 0} where
    pub Counts-Quiet : (m : Act A) → Adds (Quiet asks) m → Counts asks 0 m
    Counts-Quiet m k = record { at = λ h. omega (arith, Emits-counted (k.at h)) }

    pub Counts-weaken : (n k : ℕ) (m : Act A) → n ≤ k → Counts asks n m → Counts asks k m
    Counts-weaken n k m le s = record { at = λ h. omega (arith, s.at h) }

    pub Counts-attempt : (n : ℕ) (m : Act A) → Counts asks n m → Counts asks n (attempt m)
    unfolding attempt
    Counts-attempt n m s = record { at = λ h. s.at h }

  module _ {A B : Type 0} (n k : ℕ) where
    continue-counted :
        (r : Result A) (f : A → Act B) (h : History)
        → ((a : A) → Counts asks k (f a))
        → counted asks ((lift r >>= f) h).1 ≤ counted asks h + k
    unfolding ◌>>=◌ lift
    continue-counted (ok a) f h s = (s a).at h
    continue-counted (err e) f h s = omega arith

    pub Counts-bind :
        (m : Act A) (f : A → Act B)
        → Counts asks n m
        → ((a : A) → Counts asks k (f a))
        → Counts asks (n + k) (m >>= f)
    unfolding ◌>>=◌ lift
    Counts-bind m f sm sf = record {
      at = λ h. omega (arith, sm.at h, continue-counted (m h).0 f (m h).1 sf);
    }

  module _ {A B : Type 0} (n : ℕ) where
    pub Counts-result :
        (r : Result A) (f : A → Act B) (g : Bytes → Act B)
        → ((a : A) → Counts asks n (f a))
        → ((e : Bytes) → Counts asks n (g e))
        → Counts asks n (match_result r f g)
    unfolding match_result
    Counts-result (ok a) f g sf sg = sf a
    Counts-result (err e) f g sf sg = sg e

  pub Counts-send : (env : Env) (r : Request) → Counts asks (one asks r) (send env r)
  unfolding send
  Counts-send env r = record { at = λ h. omega arith }

  -- A step that adds a context to its error sends what it wraps.
  pub Counts-wrapped :
      {A : Type 0} (n : ℕ) (context : Bytes) (m : Act A)
      → Counts asks n m
      → Counts asks n (wrapped context m)
  unfolding wrapped ◌>>=◌ attempt
  Counts-wrapped n context m s = record {
    at = λ h. omega (
      arith,
      s.at h,
      (Counts-result 0 (m h).0 pure (λ e. fail (context ++ e)) (λ a. Counts-Quiet _ (Adds-pure a))
            (λ e. Counts-Quiet _ (Adds-fail (context ++ e)))).at
          (m h).1,
    );
  }
