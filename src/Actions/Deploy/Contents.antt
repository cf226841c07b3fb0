-- ===== src/Actions/Deploy/Contents.antt =====
-- What `Deploy` of agent/internal/actions/actions.go writes to a partition, for a server that has the
-- parts of an image.
use fos_next.Prelude.{
  ℕ, ℤ, true, false, [], ◌∷◌, ◌++◌, Option, none, some, Bytes, codes, ok, ◌≡◌, ◌∙◌, sym, ap, inl,
  inr, Bool-cases, Option-cases,
}
use fos_next.Strings.{equal}
use fos_next.Wire.{HandshakeResponse}
use fos_next.World.{
  Syscall, exec, wait_exit, Reply, call, History, Env, pure, fail, lift, send, sys, match_option,
  branch, ◌>>=◌, combined_output, exec_with, expect,
}
use fos_next.World.Adds.{nothing, Emits, Emits-trans, Adds}
use fos_next.World.Ran.{Any}
use fos_next.World.Ran.{Ran, Ran-within, Ran-now, anything}
use fos_next.World.Gives.{bind-eq-ok, match_option-eq-ok}
use fos_next.Api.{Client, download_part, download_request, download_response}
use fos_next.Api.Auth.{download_part-Adds}
use fos_next.Disk.{partition_device}
use fos_next.Imaging
use fos_next.Imaging.{restore_command}
use fos_next.Imaging.Status.{read_status}
use fos_next.Imaging.Calls.{read_status-Adds}
use fos_next.Imaging.Unbroken.{polled-later, restore-eq-ok, restore-Completed}
use fos_next.Actions.Parts.{progress_fn, make_swap, mkswap_args, detect_filesystem}
use fos_next.Actions.Parts.Events.{progress_fn-Adds, detect_filesystem-Adds}
use fos_next.Actions.Deploy.{
  starts_with_brace, restore_sentinel, restore_image, after_restore, try_part, read_all,
}
use fos_next.Actions.Deploy.Calls.{after_restore-Adds}

-- The body of a download that the server answers with a status of success is the part, if it does not
-- break off.
abbrev pub Serves : Env → Client → Bytes → (ℕ → Option Bytes) → Type 0
Serves env client image_id store =
    (h : History) (part : ℕ) (b : Bytes) (body : Reply)
    → store part ≡ some b
    → download_response part (env.respond h (download_request client image_id part 0)) ≡ ok body
    → body.fault ≡ none
    → body.out ≡ b

-- A subprocess that is given an input has read all of it when it ends.
abbrev pub Drains : Env → Type 0
Drains env = (h : History) → env.drained h ≡ true

abbrev pub mkswap_call : Env → Bytes → Bytes → Syscall
mkswap_call env dev uuid =
    exec (record { name = codes "mkswap"; args = mkswap_args env dev uuid; stdin = [] })

-- What was done to a partition with the bytes of its part: partclone restored them and ended without
-- an error, or they are a sentinel, and mkswap succeeded with its UUID if it is that of a swap
-- partition.
pub data Restored (env : Env) (dev b : Bytes) (start final : History) : Type 0 where
  image :
      (r : Reply)
      → r.fault ≡ none
      → starts_with_brace b ≡ false
      → Ran env (wait_exit (restore_command env dev b)) r start final
      → Restored env dev b start final
  swap :
      (r : Reply)
      → r.fault ≡ none
      → starts_with_brace b ≡ true
      → equal (env.codec.unmarshal_meta b).type (codes "swap") ≡ true
      → Ran env (mkswap_call env dev (env.codec.unmarshal_meta b).uuid) r start final
      → Restored env dev b start final
  other :
      starts_with_brace b ≡ true
      → equal (env.codec.unmarshal_meta b).type (codes "swap") ≡ false
      → Restored env dev b start final

pub Restored-within :
    {env : Env} {dev b : Bytes} {start h h' final : History}
    → Emits Any start h
    → Restored env dev b h h'
    → Emits Any h' final
    → Restored env dev b start final
Restored-within e (image r f n p) e' = image r f n (Ran-within e p e')
Restored-within e (swap r f y t p) e' = swap r f y t (Ran-within e p e')
Restored-within e (other y n) e' = other y n

module _ (env : Env) where
  make_swap-Ran :
      (dev uuid : Bytes) (h : History)
      → (make_swap env dev uuid h).0 ≡ ok tt
      → (r : Reply) × (r.fault ≡ none)
        × Ran env (mkswap_call env dev uuid) r h (make_swap env dev uuid h).1
  unfolding make_swap combined_output exec_with sys expect ◌>>=◌
  make_swap-Ran dev uuid h e =
      let c = mkswap_call env dev uuid in
      let r = env.answer h c in
      let (n, s) =
        match_option-eq-ok r.fault
          (λ x. codes "mkswap " ++ dev ++ codes ": " ++ x ++ (b'\n' ∷ r.out)) (call c ∷ h) e in
      (r, n, rw s (Ran-now c h))

module _ (env : Env) (client : Client) (resp : HandshakeResponse) where
  reports : (pct bpm : ℤ) → Adds Any (progress_fn env client resp pct bpm)
  reports = progress_fn-Adds env (λ c. tt) client resp (λ pct bpm. tt)

  restore_sentinel-Restored :
      (dev b : Bytes) (h : History)
      → starts_with_brace b ≡ true
      → (restore_sentinel env client resp dev (record { out = b; fault = none }) h).0 ≡ ok tt
      → Restored env dev b h
          (restore_sentinel env client resp dev (record { out = b; fault = none }) h).1
  unfolding restore_sentinel read_all match_option pure ◌>>=◌ branch
  restore_sentinel-Restored dev b h y e =
      elim (Bool-cases (equal (env.codec.unmarshal_meta b).type (codes "swap"))) [
        | inl t ↦
            let (r, n, ran) =
              make_swap-Ran env dev (env.codec.unmarshal_meta b).uuid h (rw t at e) in
            rw t (swap r n y t ran)
        | inr n ↦ rw n (other y n)
      ]

  restore_image-Restored :
      (part : ℕ) (dev b : Bytes) (h : History)
      → starts_with_brace b ≡ false
      → (restore_image env client resp part dev (record { out = b; fault = none }) h).0 ≡ ok tt
      → Restored env dev b h
          (restore_image env client resp part dev (record { out = b; fault = none }) h).1
  unfolding restore_image
  restore_image-Restored part dev b h n e =
      let progress = progress_fn env client resp in
      let src : Reply = record { out = b; fault = none } in
      let (_, _, w) = bind-eq-ok (detect_filesystem env dev) _ h e in
      let g = (detect_filesystem env dev h).1 in
      let e1 = rw w at e in
      let (_, q, w1) = bind-eq-ok (Imaging.restore env dev src progress) _ g e1 in
      let (done, rounds, started) = restore-eq-ok env progress dev src g q in
      let detected = anything {Q = Any} _ h (detect_filesystem-Adds env (λ s. tt) dev) in
      let since : Emits Any h done.at =
        Emits-trans detected
          (rw started (polled-later env progress reports (restore_command env dev b) g rounds)) in
      let c = wait_exit (restore_command env dev b) in
      let polled : Emits Any (call c ∷ done.at) (Imaging.restore env dev src progress g).1 =
        rw done.last (
          anything {Q = Any} (read_status env progress) _
            (read_status-Adds env (λ s. tt) progress reports)) in
      let after =
        anything {Q = Any} (after_restore env client resp part dev) _
          (after_restore-Adds env (λ s. tt) client resp part dev) in
      rw (w, w1)
        (image (env.answer done.at c) done.exited n
          (Ran-within since (Ran-now c done.at) (Emits-trans polled after)))

  -- a body that was read to its end did not break off
  pub read_all-whole :
      (body : Reply) (g : History) {t : Bytes} → (read_all body g).0 ≡ ok t → body.fault ≡ none
  unfolding read_all match_option fail
  read_all-whole body g e = elim (Option-cases body.fault) [
    | inl n ↦ n
    | inr (x, s) ↦ absurd (cc (rw s at e))
  ]

  restore_sentinel-whole :
      (dev : Bytes) (body : Reply) (h : History)
      → (restore_sentinel env client resp dev body h).0 ≡ ok tt
      → body.fault ≡ none
  unfolding restore_sentinel
  restore_sentinel-whole dev body h e =
      let (_, q, _) = bind-eq-ok (read_all body) _ h e in read_all-whole body h q

  restore_image-whole :
      Drains env
      → (part : ℕ) (dev : Bytes) (body : Reply) (h : History)
      → (restore_image env client resp part dev body h).0 ≡ ok tt
      → body.fault ≡ none
  unfolding restore_image
  restore_image-whole drains part dev body h e =
      let progress = progress_fn env client resp in
      let (_, _, w) = bind-eq-ok (detect_filesystem env dev) _ h e in
      let (_, q, _) = bind-eq-ok (Imaging.restore env dev body progress) _ _ (rw w at e) in
      elim (restore-Completed env progress dev body _ q).unbroken [
        | inl undrained ↦ absurd (cc (undrained, drains _))
        | inr whole ↦ whole
      ]

  module _ (store : ℕ → Option Bytes) (serves : Serves env client resp.image_id store)
      (drains : Drains env) where
    pub downloaded :
        (part : ℕ) (b : Bytes) (body : Reply) (h : History)
        → store part ≡ some b
        → (download_part env client resp.image_id part 0 h).0 ≡ ok body
        → body.fault ≡ none
        → body ≡ record { out = b; fault = none }
    unfolding download_part ◌>>=◌ send lift
    downloaded part b body h kept e n =
        ap (λ f. record { out = body.out; fault = f }) n
        ∙ ap (λ o. record { out = o; fault = none }) (serves h part b body kept e n)

    -- An attempt that returns no error has restored the part that the server has.
    pub try_part-Restored :
        (disk b : Bytes) (part : ℕ) (h : History)
        → store part ≡ some b
        → (try_part env client resp disk part h).0 ≡ ok tt
        → Restored env (partition_device disk part) b h (try_part env client resp disk part h).1
    unfolding try_part branch
    try_part-Restored disk b part h kept e =
        let dev = partition_device disk part in
        let (body, q, w) = bind-eq-ok (download_part env client resp.image_id part 0) _ h e in
        let g = (download_part env client resp.image_id part 0 h).1 in
        let e1 = rw w at e in
        let fetched =
          anything {Q = Any} _ h (download_part-Adds env client resp.image_id part 0 tt) in
        elim (Bool-cases (starts_with_brace body.out)) [
          | inl y ↦
              let n = restore_sentinel-whole dev body g (rw y at e1) in
              let same = downloaded part b body h kept q n in
              let brace : starts_with_brace b ≡ true =
                ap (λ r. starts_with_brace (Reply.out r)) (sym same) ∙ y in
              rw (w, same, brace)
                (Restored-within fetched
                  (restore_sentinel-Restored dev b g brace (rw (same, brace) at e1)) nothing)
          | inr o ↦
              let n = restore_image-whole drains part dev body g (rw o at e1) in
              let same = downloaded part b body h kept q n in
              let brace : starts_with_brace b ≡ false =
                ap (λ r. starts_with_brace (Reply.out r)) (sym same) ∙ o in
              rw (w, same, brace)
                (Restored-within fetched
                  (restore_image-Restored part dev b g brace (rw (same, brace) at e1)) nothing)
        ]
