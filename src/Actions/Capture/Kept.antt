-- ===== src/Actions/Capture/Kept.antt =====
-- What a server that keeps the last upload of each part has of the disk that `Capture` of
-- agent/internal/actions/actions.go captured.
use fos_next.Prelude.{
  ℕ, ◌^◌, ◌<◌, Bool, ◌&&◌, [], ◌∷◌, ◌++◌, Option, none, some, Bytes, codes, if◌then◌else◌, ◌≡◌, ◌≢◌,
  refl, ◌∙◌, inl, inr, Bool-cases, append_injective,
}
use fos_next.Strings.{equal}
use fos_next.Strings.Equal.{equal-eq, equal_refl}
use fos_next.Strconv.{itoa}
use fos_next.Strconv.RoundTrip.{itoa_injective}
use fos_next.Wire.{Payload}
use fos_next.World.{Event, call, http, Body, empty, json, stream, History}
use fos_next.World.Adds.{Emits, nothing, event}
use fos_next.Api.{Client, upload_request, post_request}

-- a body that was sent to its end
abbrev pub whole : Body → Option Bytes
whole (stream b none) = some b
whole (stream b (some e)) = none
whole empty = none
whole (json p) = none

abbrev pub upload_url : Client → Bytes → ℕ → Bytes
upload_url c image_id part =
    c.base ++ codes "/images/" ++ image_id ++ codes "/upload?part=" ++ itoa part

-- The last upload of a part, if it was whole.
abbrev pub kept : Client → Bytes → ℕ → History → Option Bytes
kept c image_id part [] = none
kept c image_id part (call s ∷ h) = kept c image_id part h
kept c image_id part (http r ∷ h) =
    let rest = kept c image_id part h in
    if equal r.method (codes "PUT") && equal r.url (upload_url c image_id part)
    then whole r.body
    else rest

module _ (client : Client) (image_id : Bytes) (part : ℕ) where
  -- An event that leaves the kept part as it is.
  abbrev pub Elsewhere : Event → Type 0
  Elsewhere e = (h : History) → kept client image_id part (e ∷ h) ≡ kept client image_id part h

  pub Emits-kept :
      {h h' : History}
      → Emits Elsewhere h h'
      → kept client image_id part h' ≡ kept client image_id part h
  Emits-kept nothing = refl
  Emits-kept (event {h'} q k) = q h' ∙ Emits-kept k

  pub post-Elsewhere :
      (path : Bytes) (p : Payload) (auth : Bool)
      → Elsewhere (http (post_request client path p auth))
  unfolding equal post_request
  post-Elsewhere path p auth h = refl

  pub upload-Elsewhere :
      (j : ℕ) (body : Body)
      → j < 2 ^ 64
      → part < 2 ^ 64
      → j ≢ part
      → Elsewhere (http (upload_request client image_id j body))
  unfolding upload_request
  upload-Elsewhere j body hj hp ne h =
      elim (Bool-cases (equal (upload_url client image_id j) (upload_url client image_id part))) [
        | inr n ↦ rw (equal_refl (codes "PUT"), n) refl
        | inl y ↦ absurd (
            ne (
              itoa_injective j part hj hp
                (append_injective _ (itoa j) (itoa part) (equal-eq _ _ y))))
      ]

  pub kept-upload :
      (b : Bytes) (h : History)
      → kept client image_id part (http (upload_request client image_id part (stream b none)) ∷ h)
        ≡ some b
  unfolding upload_request
  kept-upload b h = rw (equal_refl (codes "PUT"), equal_refl (upload_url client image_id part)) refl
