-- ===== src/Actions/Capture/Stored.antt =====
-- What the server has after the steps of `Capture` of agent/internal/actions/actions.go.
use fos_next.Prelude.{
  ℕ, zero, suc, ◌+◌, ◌^◌, ◌≤◌, ◌<◌, ℤ, Bool, true, List, [], ◌∷◌, some, Bytes, ok, ◌≡◌, refl, sym,
  ap, ◌∙◌, arith, inl, inr, Bool-cases, length,
}
use fos_next.Wire.{HandshakeResponse, ImageMetaRequest}
use fos_next.World.{Event, History, Env, Act}
use fos_next.World.Adds.{Emits, nothing, Adds}
use fos_next.World.Gives.{bind-eq-ok}
use fos_next.World.Ran.{anything, anything-until}
use fos_next.World.Ran.{Any}
use fos_next.Api.{Client, set_image_meta, no_out}
use fos_next.Api.Auth.{post-Adds}
use fos_next.Disk
use fos_next.Disk.{partition_device, discover_partitions}
use fos_next.Disk.Calls.{primary-Adds, discover_partitions-Adds}
use fos_next.Disk.Numbers.{present, devices, Settled}
use fos_next.Partition
use fos_next.Actions.Parts.{progress_fn}
use fos_next.Actions.Parts.Events.{progress_fn-Adds}
use fos_next.Actions.Capture.{capture_part, capture_parts, capture_steps}
use fos_next.Actions.Capture.Calls.{capture_parts-Adds}
use fos_next.Actions.Capture.Numbering.{At, first, next, count, count_bound, present-At}
use fos_next.Actions.Capture.Kept.{
  kept, Elsewhere, Emits-kept, post-Elsewhere, upload-Elsewhere, kept-upload,
}
use fos_next.Actions.Capture.Clones.{Content-within}
use fos_next.Actions.Capture.Contents.{Uploaded, Uploaded-since, capture_part-Uploaded}
use fos_next.Actions.Capture.Course.{Course}
use fos_next.Actions.Capture.Rounds.{part-Any, parts_listed, listed_since, course, course-disk}

pub length-present :
    (exists : ℕ → Bool) (disk : Bytes) (left i : ℕ)
    → length (devices disk (present exists left i)) ≡ count exists i left
length-present exists disk zero i = refl
length-present exists disk (suc left) i =
    let rest = length-present exists disk left (i + 1) in
    elim (Bool-cases (exists i)) [
      | inl y ↦ rw (y, rest) (omega arith)
      | inr o ↦ rw (o, rest) (omega arith)
    ]

module _ (env : Env) (client : Client) (resp : HandshakeResponse) (n : ℕ) where
  abbrev Q : Event → Type 0
  Q = Elsewhere client resp.image_id n

  reports : (pct bpm : ℤ) → Adds Q (progress_fn env client resp pct bpm)
  reports =
      progress_fn-Adds env (λ c h. refl) client resp
        (λ pct bpm. post-Elsewhere client resp.image_id n _ _ _)

  describe-Adds : (m : ImageMetaRequest) → Adds Q (set_image_meta env client m)
  unfolding set_image_meta
  describe-Adds m =
      post-Adds env client _ _ _ no_out (post-Elsewhere client resp.image_id n _ _ _) (λ d h. refl)

  -- an action that leaves the kept part as it is
  Adds-kept :
      {A : Type 0} (m : Act A)
      → Adds Q m
      → (h g : History) → (m h).1 ≡ g
      → kept client resp.image_id n g ≡ kept client resp.image_id n h
  Adds-kept m a h g e = rw (sym e) (Emits-kept client resp.image_id n (a.at h))

  -- the uploads of other parts
  others-Adds :
      (devs : List Bytes) (k : ℕ) (fixed : List ℕ)
      → n < k
      → k + length devs ≤ 2 ^ 64
      → Adds Q (capture_parts env client resp devs k fixed)
  others-Adds devs k fixed lt le =
      capture_parts-Adds env client resp (λ c h. refl) reports devs k fixed
        (λ j lo hi body.
          upload-Elsewhere client resp.image_id n j body (omega arith) (omega arith)
            (λ e. omega arith))

  Uploaded-later :
      {dev : Bytes} {start h h' : History}
      → Uploaded env client resp n dev start h
      → Emits Q h h'
      → Emits (λ _. Unit {0}) h h'
      → Uploaded env client resp n dev start h'
  Uploaded-later u e any = record {
    bytes = u.bytes;
    stored = Emits-kept client resp.image_id n e ∙ u.stored;
    content = Content-within nothing u.content any;
  }

  capture_parts-Uploaded :
      {dev : Bytes} (devs : List Bytes) (k : ℕ) (fixed all : List ℕ) (h : History)
      → k + length devs ≤ 2 ^ 64
      → (capture_parts env client resp devs k fixed h).0 ≡ ok all
      → At n dev k devs
      → Uploaded env client resp n dev h (capture_parts env client resp devs k fixed h).1
  unfolding capture_parts
  capture_parts-Uploaded [] k fixed all h le e a = elim a [ ]
  capture_parts-Uploaded (dev ∷ devs) k fixed all h le e first =
      let (more, q, w) = bind-eq-ok (capture_part env client resp k dev fixed) _ h e in
      let later = others-Adds devs (k + 1) more (omega arith) (omega arith) in
      rw w (
        Uploaded-later (capture_part-Uploaded env client resp n dev fixed more h q) (later.at _)
          (anything _ _ later))
  capture_parts-Uploaded (x ∷ devs) k fixed all h le e (next a) =
      let (more, q, w) = bind-eq-ok (capture_part env client resp k x fixed) _ h e in
      rw w (
        Uploaded-since env client resp (anything _ h (part-Any env client resp k x fixed))
          (capture_parts-Uploaded devs (k + 1) more all _ (omega arith) (rw w at e) a))

-- The run of `Partition.backup` whose result the server keeps as part 0.
pub record Table (env : Env) (client : Client) (resp : HandshakeResponse) (disk : Bytes)
    (start final : History) : Type 0 where
  pub blob : Bytes
  pub from : History
  pub since : Emits Any start from
  pub made : (Partition.backup env disk from).0 ≡ ok blob
  pub stored : kept client resp.image_id 0 final ≡ some blob

module _ (env : Env) (client : Client) (resp : HandshakeResponse) where
  -- what the listing and the loop leave as it is
  module _ {h final : History} (c : Course env client resp h final) where
    few_parts : (exists : ℕ → Bool) → Settled env c.disk exists → length c.parts ≤ 128
    few_parts exists settled =
        rw (parts_listed env client resp c exists settled, length-present exists c.disk 128 1)
          (count_bound exists 1 128)

    Course-Uploaded :
        (exists : ℕ → Bool)
        → Settled env c.disk exists
        → (d : ℕ) → d < 128
        → exists (1 + d) ≡ true
        → Uploaded env client resp (1 + count exists 1 d) (partition_device c.disk (1 + d)) h final
    Course-Uploaded exists settled d lt there =
        let n = 1 + count exists 1 d in
        let few = few_parts exists settled in
        let place = present-At exists c.disk 128 1 1 d lt there in
        let up =
          capture_parts-Uploaded env client resp n c.parts 1 [] c.fixed c.listed (omega arith)
            (ap (λ r. r.0) c.looped) (rw (parts_listed env client resp c exists settled) place) in
        let describe = describe-Adds env client resp n c.meta in
        rw (sym c.described, sym (ap (λ r. r.1) c.looped))
          (Uploaded-later env client resp n
            (Uploaded-since env client resp (listed_since env client resp c) up) (describe.at _)
            (anything _ _ describe))

    Course-Table :
        (exists : ℕ → Bool) → Settled env c.disk exists → Table env client resp c.disk h final
    Course-Table exists settled =
        let few = few_parts exists settled in
        let list : Adds (Elsewhere client resp.image_id 0) (discover_partitions env c.disk) =
          discover_partitions-Adds env (λ s h. refl) c.disk in
        let loop = others-Adds env client resp 0 c.parts 1 [] (omega arith) (omega arith) in
        let describe = describe-Adds env client resp 0 c.meta in
        record {
          blob = c.table;
          from = c.start;
          since = anything-until {Q = Any} _ (primary-Adds env (λ s. tt)) c.chosen;
          made = ap (λ r. r.0) c.backed_up;
          stored =
              Adds-kept env client resp 0 _ describe c.captured final c.described
              ∙ Adds-kept env client resp 0 _ loop c.listed c.captured (ap (λ r. r.1) c.looped)
              ∙ Adds-kept env client resp 0 _ list _ c.listed (ap (λ r. r.1) c.found)
              ∙ kept-upload client resp.image_id 0 c.table c.copied;
        }

  -- If the steps of `Capture` return no error and whether a partition of the chosen disk exists does
  -- not change meanwhile, then for each existing partition among the first 128 the last upload
  -- under the number 1 + the count of the existing partitions in front of it was sent to its end,
  -- and its body is the output of a run of partclone on that partition that ended without an error,
  -- or the swap sentinel with the UUID that blkid printed for it; either was run by these steps.
  pub capture_steps-Uploaded :
      (h : History) (disk : Bytes) (exists : ℕ → Bool)
      → (capture_steps env client resp h).0 ≡ ok tt
      → (Disk.primary env h).0 ≡ ok disk
      → Settled env disk exists
      → (d : ℕ) → d < 128
      → exists (1 + d) ≡ true
      → Uploaded env client resp
          (1 + count exists 1 d)
          (partition_device disk (1 + d))
          h
          (capture_steps env client resp h).1
  capture_steps-Uploaded h disk exists e chosen settled d lt there =
      let same = course-disk env client resp h e chosen in
      rw (sym same)
        (Course-Uploaded (course env client resp h e) exists (rw same settled) d lt there)

  -- Under the same conditions the last upload under number 0 is the partition table that
  -- `partition.Backup` returned for the disk when these steps ran it.
  pub capture_steps-Table :
      (h : History) (disk : Bytes) (exists : ℕ → Bool)
      → (capture_steps env client resp h).0 ≡ ok tt
      → (Disk.primary env h).0 ≡ ok disk
      → Settled env disk exists
      → Table env client resp disk h (capture_steps env client resp h).1
  capture_steps-Table h disk exists e chosen settled =
      let same = course-disk env client resp h e chosen in
      rw (sym same) (Course-Table (course env client resp h e) exists (rw same settled))
