-- ===== src/Api/Auth.antt =====
-- What each operation of agent/internal/api/client.go adds to the history: its own request, perhaps
-- several times, and pauses.
use fos_next.Prelude.{ℕ, zero, suc, ◌+◌, ◌*◌, Bool, Bytes, Result}
use fos_next.Wire.{Payload}
use fos_next.World.{
  sleep, Event, call, http, Body, Env, Act, pure, attempt, match_result, branch, fail, ◌>>◌, ◌>>=◌,
}
use fos_next.World.Adds.{Adds, adds_rules}
use fos_next.Api.{
  Client, post_request, do_post, wait, post_loop, post, is_spent, download_part, download_request,
  upload_part, upload_request,
}

module _ (env : Env) {Q : Event → Type 0} where
  pub wait-Adds : (d : ℕ) → Q (call (sleep d)) → Adds Q (wait env d)
  unfolding wait
  wait-Adds d q = search (adds_rules, q)

  post_round-Adds :
      {A : Type 0} (m rest : Act A) (n b : ℕ)
      → Adds Q m
      → Adds Q rest
      → ((d : ℕ) → Q (call (sleep d)))
      → Adds Q (
          attempt m >>= λ r.
          match_result r pure (λ e. branch (is_spent n) (fail e) (wait env b >> rest)))
  post_round-Adds m rest n b k more q = search (adds_rules, wait-Adds) depth 8

  post_loop-Adds :
      {A : Type 0} (m : Act A)
      → Adds Q m
      → ((d : ℕ) → Q (call (sleep d)))
      → (f n b : ℕ) → Adds Q (post_loop env m f n b)
  unfolding post_loop
  post_loop-Adds m k q zero n b = search adds_rules
  post_loop-Adds m k q (suc f) n b =
      post_round-Adds m _ _ b k (post_loop-Adds m k q f (n + 1) (b * 2)) q

  module _ (c : Client) (path : Bytes) (body : Payload) (auth : Bool) where
    do_post-Adds :
        {A : Type 0} (out : Bytes → Result A)
        → Q (http (post_request c path body auth))
        → Adds Q (do_post env c path body auth out)
    unfolding do_post
    do_post-Adds out q = search (adds_rules, q)

    pub post-Adds :
        {A : Type 0} (out : Bytes → Result A)
        → Q (http (post_request c path body auth))
        → ((d : ℕ) → Q (call (sleep d)))
        → Adds Q (post env c path body auth out)
    unfolding post
    post-Adds out q s = post_loop-Adds _ (do_post-Adds out q) s 5 0 2000

  pub download_part-Adds :
      (c : Client) (image_id : Bytes) (part start : ℕ)
      → Q (http (download_request c image_id part start))
      → Adds Q (download_part env c image_id part start)
  unfolding download_part
  download_part-Adds c image_id part start q = search (adds_rules, q)

  pub upload_part-Adds :
      (c : Client) (image_id : Bytes) (part : ℕ) (body : Body)
      → Q (http (upload_request c image_id part body))
      → Adds Q (upload_part env c image_id part body)
  unfolding upload_part
  upload_part-Adds c image_id part body q = search (adds_rules, q)
