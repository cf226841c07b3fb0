-- ===== src/Actions/Capture/Meta.antt =====
-- The metadata that `Capture` of agent/internal/actions/actions.go sends behind its uploads.
use fos_next.Prelude.{
  ℕ, ◌+◌, ◌≤◌, ◌<◌, Bool, true, false, List, [], ◌∷◌, Option, none, some, Bytes, codes, ok, ◌≡◌,
  ◌≢◌, refl, sym, ap, ◌∙◌, arith, length,
}
use fos_next.Wire.{HandshakeResponse, ImageMetaRequest, image_meta}
use fos_next.World.{Event, call, http, sleep, Body, json, History, Env, pure}
use fos_next.World.Adds.{Emits, nothing, event}
use fos_next.World.Gives.{bind-eq-ok, ok-injective}
use fos_next.World.Ran.{anything}
use fos_next.Api.{Client, post_request, set_image_meta, no_out}
use fos_next.Api.Auth.{post-Adds}
use fos_next.Api.Retry.Count.{sent, post_bounds}
use fos_next.Disk
use fos_next.Disk.{partition_device}
use fos_next.Disk.Numbers.{Settled}
use fos_next.Actions.Capture.{capture_part, capture_parts, capture_steps}
use fos_next.Actions.Capture.Numbering.{At, first, next, count, present-At}
use fos_next.Actions.Capture.Course.{Course}
use fos_next.Actions.Deploy.{is_fixed}
use fos_next.Actions.Capture.Stored.{length-present}
use fos_next.Actions.Capture.Rounds.{part-Any, parts_listed, listed_since, course, course-disk}
use fos_next.Actions.Capture.Fixed.{
  listed, listed-note_fixed, listed-other, Sized, Sized-since, round-Sized,
}

abbrev meta_of : Body → Option ImageMetaRequest
meta_of (json (image_meta m)) = some m
meta_of _ = none

abbrev or_else : Option ImageMetaRequest → Option ImageMetaRequest → Option ImageMetaRequest
or_else (some m) rest = some m
or_else none rest = rest

-- the metadata that was sent last
abbrev pub last_meta : History → Option ImageMetaRequest
last_meta [] = none
last_meta (call c ∷ h) = last_meta h
last_meta (http r ∷ h) = let rest = last_meta h in or_else (meta_of r.body) rest

data MetaEvent (client : Client) (m : ImageMetaRequest) : Event → Type 0 where
  paused : (d : ℕ) → MetaEvent client m (call (sleep d))
  told : MetaEvent client m (http (post_request client (codes "/images/meta") (image_meta m) true))

module _ (client : Client) (m : ImageMetaRequest) where
  told-last :
      {h h' : History}
      → Emits (MetaEvent client m) h h'
      → sent h + 1 ≤ sent h'
      → last_meta h' ≡ some m
  unfolding post_request
  told-last nothing le = absurd (omega arith)
  told-last (event (paused d) k) le = told-last k le
  told-last (event told k) le = refl

  set_image_meta-last :
      (env : Env) (h : History) → last_meta (set_image_meta env client m h).1 ≡ some m
  unfolding set_image_meta
  set_image_meta-last env h =
      told-last ((post-Adds env client _ _ _ no_out told paused).at h)
        (post_bounds env client _ _ _ no_out h).0

module _ (env : Env) (client : Client) (resp : HandshakeResponse) where
  -- later rounds leave the entry of an earlier number as it is
  listed-capture_parts :
      (devs : List Bytes) (k : ℕ) (fixed all : List ℕ) (h : History)
      → (capture_parts env client resp devs k fixed h).0 ≡ ok all
      → (j : ℕ) → j < k
      → listed all j ≡ listed fixed j
  unfolding capture_parts pure
  listed-capture_parts [] k fixed all h e j lt = ap (λ ns. listed ns j) (sym (ok-injective e))
  listed-capture_parts (dev ∷ devs) k fixed all h e j lt =
      let (more, q, w) = bind-eq-ok (capture_part env client resp k dev fixed) _ h e in
      let (full, noted, _) = round-Sized env client resp k dev fixed more h q in
      let other : k ≢ j = (λ p. omega arith) in
      listed-capture_parts devs (k + 1) more all _ (rw w at e) j (omega arith)
      ∙ ap (λ ns. listed ns j) (sym noted)
      ∙ listed-other full fixed k j other

  capture_parts-Sized :
      {n : ℕ} {dev : Bytes} (devs : List Bytes) (k : ℕ) (fixed all : List ℕ) (h : History)
      → ((j : ℕ) → k ≤ j → listed fixed j ≡ false)
      → (capture_parts env client resp devs k fixed h).0 ≡ ok all
      → At n dev k devs
      → Sized env resp dev h (listed all n)
  unfolding capture_parts
  capture_parts-Sized [] k fixed all h new e a = elim a [ ]
  capture_parts-Sized (dev ∷ devs) k fixed all h new e first =
      let (more, q, w) = bind-eq-ok (capture_part env client resp k dev fixed) _ h e in
      let (full, noted, sized) = round-Sized env client resp k dev fixed more h q in
      let same : listed all k ≡ full =
        listed-capture_parts devs (k + 1) more all _ (rw w at e) k (omega arith)
        ∙ ap (λ ns. listed ns k) (sym noted)
        ∙ listed-note_fixed full fixed k (new k (omega arith)) in
      rw same sized
  capture_parts-Sized (x ∷ devs) k fixed all h new e (next a) =
      let (more, q, w) = bind-eq-ok (capture_part env client resp k x fixed) _ h e in
      let (full, noted, _) = round-Sized env client resp k x fixed more h q in
      let still : (j : ℕ) → k + 1 ≤ j → listed more j ≡ false = (λ j le.
        ap (λ ns. listed ns j) (sym noted)
        ∙ listed-other full fixed k j (λ p. omega arith)
        ∙ new j (omega arith)) in
      Sized-since (anything _ h (part-Any env client resp k x fixed))
        (capture_parts-Sized devs (k + 1) more all _ still (rw w at e) a)

empty_lists : (j : ℕ) → listed [] j ≡ false
unfolding is_fixed
empty_lists j = refl

-- The metadata that was sent last counts the existing partitions, and lists a partition as one of fixed
-- size, where `Deploy` looks it up, for a reason that fits it.
pub record Described (env : Env) (client : Client) (resp : HandshakeResponse) (n total : ℕ)
    (dev : Bytes) (start final : History) : Type 0 where
  pub meta : ImageMetaRequest
  pub sent_last : last_meta final ≡ some meta
  pub of_image : meta.image_id ≡ resp.image_id
  pub counted : meta.part_count ≡ total
  pub sized : Sized env resp dev start (listed meta.fixed_size_partitions n)

module _ (env : Env) (client : Client) (resp : HandshakeResponse) where
  Course-Described :
      {h final : History} (c : Course env client resp h final) (exists : ℕ → Bool)
      → Settled env c.disk exists
      → (d : ℕ) → d < 128
      → exists (1 + d) ≡ true
      → Described env client resp
          (1 + count exists 1 d)
          (count exists 1 128)
          (partition_device c.disk (1 + d))
          h
          final
  Course-Described c exists settled d lt there =
      let place = present-At exists c.disk 128 1 1 d lt there in
      let parts = parts_listed env client resp c exists settled in
      let sized =
        capture_parts-Sized env client resp c.parts 1 [] c.fixed c.listed (λ j le. empty_lists j)
          (ap (λ r. r.0) c.looped) (rw parts place) in
      record {
        meta = c.meta;
        sent_last = rw (sym c.described) (set_image_meta-last client c.meta env c.captured);
        of_image = c.meta_image;
        counted = c.meta_count ∙ ap length parts ∙ length-present exists c.disk 128 1;
        sized = rw c.meta_fixed (Sized-since (listed_since env client resp c) sized);
      }

  -- If the steps of `Capture` return no error and whether a partition of the chosen disk exists does
  -- not change meanwhile, then the metadata that they sent last counts the existing partitions among
  -- the first 128. For each of these, `Deploy` finds it in the list of fixed-size partitions, under the
  -- number of its upload, only if the image is resizable, the filesystem that was looked up is not swap,
  -- and it cannot be shrunk or a run of `Shrink` by these steps did not return that it was; and does not
  -- find it there only if the image is not resizable, or it is swap, or `Shrink` returned that it was.
  pub capture_steps-Described :
      (h : History) (disk : Bytes) (exists : ℕ → Bool)
      → (capture_steps env client resp h).0 ≡ ok tt
      → (Disk.primary env h).0 ≡ ok disk
      → Settled env disk exists
      → (d : ℕ) → d < 128
      → exists (1 + d) ≡ true
      → Described env client resp
          (1 + count exists 1 d)
          (count exists 1 128)
          (partition_device disk (1 + d))
          h
          (capture_steps env client resp h).1
  capture_steps-Described h disk exists e chosen settled d lt there =
      let same = course-disk env client resp h e chosen in
      rw (sym same)
        (Course-Described (course env client resp h e) exists (rw same settled) d lt there)
