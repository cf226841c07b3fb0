-- ===== src/Api/Retry.antt =====
-- `post` of agent/internal/api/client.go: at most five tries, with waits that double.
pub mod Count
use mathlib.Core.Path.{fun_ext}
use fos_next.Prelude.{
  ℕ, zero, suc, ◌+◌, ◌≤◌, Bool, true, false, List, [], ◌∷◌, ◌++◌, map, Option, none, some, Bytes,
  codes, Result, ok, err, ◌≡◌, refl, ap, ◌∙◌, arith, length, ◌⊎◌, inl, inr, Option-cases,
}
use fos_next.Wire.{Payload}
use fos_next.World.{
  sleep, Event, call, http, History, Request, Env, Act, attempt, fail, pure, ask, sys, branch,
  match_result, match_option, ◌>>=◌, ◌>>◌,
}
use fos_next.Api.{Client, post_request, post_response, do_post, wait, post_loop, post, is_spent}

-- how the loop ends behind its last try
abbrev settle : {A : Type 0} → Result A → Act A
settle r = match_result r pure fail

abbrev last_try : {A : Type 0} → Act A → Act A
last_try m = attempt m >>= settle

give_up : {A : Type 0} (r : Result A) (h : History) → settle r h ≡ (r, h)
unfolding ◌>>=◌ match_result
give_up (ok a) h = refl
give_up (err e) h = refl

last_try_lem : {A : Type 0} (m : Act A) → last_try m ≡ m
unfolding ◌>>=◌ match_result
last_try_lem m = fun_ext λ h. give_up (m h).0 (m h).1

module _ (env : Env) where
  -- how a round of the loop ends: with the value, or with a wait and what follows it
  abbrev retried : {A : Type 0} → ℕ → Act A → Result A → Act A
  retried d k r = match_result r pure (λ e. wait env d >> k)

  -- the rounds of the loop with those waits, and then `k`
  abbrev rounds : {A : Type 0} → Act A → List ℕ → Act A → Act A
  rounds m [] k = k
  rounds m (d ∷ ds) k = attempt m >>= retried d (rounds m ds k)

  -- A pause of `d` milliseconds and then `k`, from what the context says in front of it: where it is
  -- cancelled with an error, that is the result, and nothing is done.
  unfoldable pub paused :
      {A : Type 0}
      → ℕ
      → (History → Result A × History)
      → Option Bytes
      → History
      → Result A × History
  paused d k (some e) h = (err e, h)
  paused d k none h = k (call (sleep d) ∷ h)

  -- what follows a try: nothing where it has a value
  unfoldable pub again :
      {A : Type 0} → ℕ → (History → Result A × History) → Result A → History → Result A × History
  again d k (ok a) h = (ok a, h)
  again d k (err e) h = paused d k (env.cancelled h) h

  -- One try, and then one more behind a pause of each length as long as the tries fail.
  unfoldable pub retry :
      {A : Type 0} → (History → Result A × History) → List ℕ → History → Result A × History
  retry m [] h = m h
  retry m (d ∷ ds) h = again d (retry m ds) (m h).0 (m h).1

  wait-paused :
      {A : Type 0} (d : ℕ) (k : Act A) (h : History)
      → (wait env d >> k) h ≡ paused d k (env.cancelled h) h
  unfolding wait paused match_option ◌>>=◌ ask sys fail pure
  wait-paused d k h = elim (Option-cases (env.cancelled h)) [
    | inl n ↦ rw n refl
    | inr (e, s) ↦ rw s refl
  ]

  retried-again :
      {A : Type 0} (d : ℕ) (k : Act A) (r : Result A) (h : History)
      → retried d k r h ≡ again d k r h
  unfolding again match_result pure
  retried-again d k (ok a) h = refl
  retried-again d k (err e) h = wait-paused d k h

  rounds-retry : {A : Type 0} (m : Act A) (ds : List ℕ) → rounds m ds m ≡ retry m ds
  unfolding retry ◌>>=◌ attempt
  rounds-retry m [] = refl
  rounds-retry m (d ∷ ds) = fun_ext λ h.
      retried-again d (rounds m ds m) (m h).0 (m h).1
      ∙ ap (λ k. again d k (m h).0 (m h).1) (rounds-retry m ds)

  -- `post` is one try of `doPost`, followed by tries behind pauses of 2, 4, 8 and 16 seconds while it
  -- fails; its result is that of the last try. Where the context is cancelled in front of a pause, the
  -- result is the context's error, and neither a pause nor a try follows.
  pub post-retry :
      {A : Type 0} (c : Client) (path : Bytes) (body : Payload) (auth : Bool)
      (out : Bytes → Result A)
      → post env c path body auth out
        ≡ retry (do_post env c path body auth out) (2000 ∷ 4000 ∷ 8000 ∷ 16000 ∷ [])
  unfolding post_loop post branch is_spent
  post-retry c path body auth out =
      let m = do_post env c path body auth out in
      let ds : List ℕ = 2000 ∷ 4000 ∷ 8000 ∷ 16000 ∷ [] in
      ap (rounds m ds) (last_try_lem m) ∙ rounds-retry m ds

-- A pause ends with the context's error and does nothing, or it sleeps and goes on.
pub paused-cases :
    (env : Env) {A : Type 0} (d : ℕ) (k : Act A) (h : History)
    → ((e : Bytes) × (env.cancelled h ≡ some e) × (paused env d k (env.cancelled h) h ≡ (err e, h)))
      ⊎ ((env.cancelled h ≡ none) × (paused env d k (env.cancelled h) h ≡ k (call (sleep d) ∷ h)))
unfolding paused
paused-cases env d k h = elim (Option-cases (env.cancelled h)) [
  | inl n ↦ inr (n, rw n refl)
  | inr (e, s) ↦ inl (e, s, rw s refl)
]

module _ (env : Env) {A : Type 0} (P : A → History → Type 0) where
  -- A value that `m` returns stands in the relation to the history that it leaves.
  abbrev Returns : Act A → Type 0
  Returns m = (h : History) (a : A) → (m h).0 ≡ ok a → P a (m h).1

module _ (env : Env) {A : Type 0} (c : Client) (path : Bytes) (body : Payload) (auth : Bool) where
  -- The history ends with this request, and `a` is what was decoded from the response to it.
  pub Answered : (Bytes → Result A) → A → History → Type 0
  Answered out a h =
      (before : History) × (h ≡ http (post_request c path body auth) ∷ before)
      × (post_response path out (env.respond before (post_request c path body auth)) ≡ ok a)
