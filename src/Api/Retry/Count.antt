-- ===== src/Api/Retry/Count.antt =====
-- How many requests `post` of agent/internal/api/client.go sends.
use fos_next.Prelude.{
  ℕ, suc, ◌+◌, ◌≤◌, Bool, List, [], ◌∷◌, none, Bytes, Result, ok, err, ◌≡◌, arith, length, inl, inr,
}
use fos_next.Wire.{Payload}
use fos_next.World.{call, http, History, Env, Act, ◌>>=◌, send}
use fos_next.Api.{Client, do_post, post}
use fos_next.Api.Retry.{again, retry, paused-cases, post-retry}

-- the requests in a history
abbrev pub sent : History → ℕ
sent [] = 0
sent (http r ∷ h) = suc (sent h)
sent (call c ∷ h) = sent h

module _ (env : Env) {A : Type 0} where
  -- A run of `k` from `h` sends from `lo` up to `hi` requests; it sends `hi` if it fails and the
  -- context is never cancelled.
  record Sends (lo hi : ℕ) (h : History) (out : Result A × History) : Type 0 where
    at_least : sent h + lo ≤ sent out.1
    at_most : sent out.1 ≤ sent h + hi
    all_spent :
        ((g : History) → env.cancelled g ≡ none)
        → (e : Bytes) → out.0 ≡ err e
        → sent out.1 ≡ sent h + hi

  again-Sends :
      (d n : ℕ) (k : Act A) (r : Result A) (h : History)
      → ((g : History) → Sends 0 n g (k g))
      → Sends 0 n h (again env d k r h)
  unfolding again
  again-Sends d n k (ok a) h kn = record {
    at_least = omega arith;
    at_most = omega arith;
    all_spent = λ never e p. absurd (cc p);
  }
  again-Sends d n k (err x) h kn = elim (paused-cases env d k h) [
    | inl (y, c, w) ↦ rw w (record {
      at_least = omega arith;
      at_most = omega arith;
      all_spent = λ never e _. absurd (cc (c, never h));
    })
    | inr (_, w) ↦ rw w (
        let s = kn (_ ∷ h) in
        record { at_least = s.at_least; at_most = s.at_most; all_spent = s.all_spent })
  ]

  module _ (m : Act A) (one : (h : History) → sent (m h).1 ≡ sent h + 1) where
    retry-Sends : (ds : List ℕ) (h : History) → Sends 1 (1 + length ds) h (retry env m ds h)
    unfolding retry
    retry-Sends [] h = record {
      at_least = omega (arith, one h);
      at_most = omega (arith, one h);
      all_spent = λ never e p. omega (arith, one h);
    }
    retry-Sends (d ∷ ds) h =
        let more =
          again-Sends d (1 + length ds) (retry env m ds) (m h).0 (m h).1
            (λ g. weaken g (retry-Sends ds g)) in
        record {
          at_least = omega (arith, one h, more.at_least);
          at_most = omega (arith, one h, more.at_most);
          all_spent = λ never e p. omega (arith, one h, more.all_spent never e p);
        }
      where
        weaken :
            (g : History)
            → Sends 1 (1 + length ds) g (retry env m ds g)
            → Sends 0 (1 + length ds) g (retry env m ds g)
        weaken g s = record {
          at_least = omega (arith, s.at_least);
          at_most = s.at_most;
          all_spent = s.all_spent;
        }

module _ (env : Env) {A : Type 0} (c : Client) (path : Bytes) (body : Payload) (auth : Bool)
    (out : Bytes → Result A) where
  do_post_once : (h : History) → sent (do_post env c path body auth out h).1 ≡ sent h + 1
  unfolding do_post ◌>>=◌ send
  do_post_once h = omega arith

  post-Sends : (h : History) → Sends env 1 5 h (post env c path body auth out h)
  post-Sends h = rw post-retry (retry-Sends env _ do_post_once _ h)

  -- `post` sends at least one request and at most five.
  pub post_bounds :
      (h : History)
      → (sent h + 1 ≤ sent (post env c path body auth out h).1)
        × (sent (post env c path body auth out h).1 ≤ sent h + 5)
  post_bounds h = ((post-Sends h).at_least, (post-Sends h).at_most)

  -- Where the context is never cancelled, `post` fails only behind its fifth request.
  pub post_persists :
      ((g : History) → env.cancelled g ≡ none)
      → (h : History) (e : Bytes) → (post env c path body auth out h).0 ≡ err e
      → sent (post env c path body auth out h).1 ≡ sent h + 5
  post_persists never h e f = (post-Sends h).all_spent never e f
