-- ===== src/Actions/Capture/Rounds.antt =====
-- The rounds of the loop of `Capture` of agent/internal/actions/actions.go.
use fos_next.Prelude.{
  ℕ, ◌+◌, ◌≤◌, ◌<◌, Bool, true, List, [], ◌∷◌, Bytes, ok, ◌≡◌, sym, ap, ◌∙◌, arith,
}
use fos_next.Wire.{HandshakeResponse, ImageMetaRequest}
use fos_next.World.{History, Env}
use fos_next.World.Adds.{Emits, Emits-trans, nothing, event, Adds}
use fos_next.World.Gives.{bind-eq-ok, ok-injective, returns}
use fos_next.World.Ran.{anything, anything-until}
use fos_next.World.Ran.{Any}
use fos_next.Api.{Client, set_image_meta, no_out}
use fos_next.Api.Auth.{post-Adds}
use fos_next.Disk
use fos_next.Disk.{partition_device, discover_partitions}
use fos_next.Disk.Calls.{primary-Adds, discover_partitions-Adds}
use fos_next.Partition.Calls.{backup-Adds}
use fos_next.Disk.Numbers.{present, devices, Settled, discover_partitions-present}
use fos_next.Actions.Parts.Events.{progress_fn-Adds}
use fos_next.Actions.Capture.{capture_part, capture_parts, capture_steps}
use fos_next.Actions.Capture.Calls.{capture_part-Adds, capture_parts-Adds}
use fos_next.Actions.Capture.Numbering.{At, first, next, count, present-At}
use fos_next.Actions.Capture.Course.{Course, capture_steps-Course}
use fos_next.Prelude.{true, false}
use fos_next.Actions.Capture.Numbering.{count_gap}

module _ (env : Env) (client : Client) (resp : HandshakeResponse) where
  pub part-Any :
      (k : ℕ) (dev : Bytes) (fixed : List ℕ) → Adds Any (capture_part env client resp k dev fixed)
  part-Any k dev fixed =
      capture_part-Adds env client resp (λ c. tt)
        (progress_fn-Adds env (λ c. tt) client resp (λ pct bpm. tt)) k dev fixed (λ body. tt)

  -- A round of the loop that captured the device under the number, between two histories.
  pub record Captured (n : ℕ) (dev : Bytes) (start final : History) : Type 0 where
    pub from : History
    pub fixed : List ℕ
    pub more : List ℕ
    pub since : Emits Any start from
    pub no_error : (capture_part env client resp n dev fixed from).0 ≡ ok more
    pub behind : Emits Any (capture_part env client resp n dev fixed from).1 final

  Captured-within :
      {n : ℕ} {dev : Bytes} {start h h' final : History}
      → Emits Any start h
      → Captured n dev h h'
      → Emits Any h' final
      → Captured n dev start final
  Captured-within e c e' = record {
    from = c.from;
    fixed = c.fixed;
    more = c.more;
    since = Emits-trans e c.since;
    no_error = c.no_error;
    behind = Emits-trans c.behind e';
  }

  describe-Any : (m : ImageMetaRequest) → Adds Any (set_image_meta env client m)
  unfolding set_image_meta
  describe-Any m = post-Adds env client _ _ _ no_out tt (λ d. tt)

  parts-Any :
      (devs : List Bytes) (k : ℕ) (fixed : List ℕ)
      → Adds Any (capture_parts env client resp devs k fixed)
  parts-Any devs k fixed =
      capture_parts-Adds env client resp (λ c. tt)
        (progress_fn-Adds env (λ c. tt) client resp (λ pct bpm. tt)) devs k fixed
        (λ j lo hi body. tt)

  capture_parts-Captured :
      {n : ℕ} {dev : Bytes} (devs : List Bytes) (k : ℕ) (fixed all : List ℕ) (h : History)
      → (capture_parts env client resp devs k fixed h).0 ≡ ok all
      → At n dev k devs
      → Captured n dev h (capture_parts env client resp devs k fixed h).1
  unfolding capture_parts
  capture_parts-Captured [] k fixed all h e a = elim a [ ]
  capture_parts-Captured (dev ∷ devs) k fixed all h e first =
      let (more, q, w) = bind-eq-ok (capture_part env client resp k dev fixed) _ h e in
      rw w (record {
        from = h;
        fixed = fixed;
        more = more;
        since = nothing;
        no_error = q;
        behind = anything _ _ (parts-Any devs (k + 1) more);
      })
  capture_parts-Captured (x ∷ devs) k fixed all h e (next a) =
      let (more, q, w) = bind-eq-ok (capture_part env client resp k x fixed) _ h e in
      rw w (
        Captured-within (anything _ h (part-Any k x fixed))
          (capture_parts-Captured devs (k + 1) more all _ (rw w at e) a) nothing)

  module _ {h final : History} (c : Course env client resp h final) where
    pub parts_listed :
        (exists : ℕ → Bool)
        → Settled env c.disk exists
        → c.parts ≡ devices c.disk (present exists 128 1)
    parts_listed exists settled =
        ok-injective
          (sym (ap (λ r. r.0) c.found) ∙ discover_partitions-present env c.disk exists settled _)

    pub listed_since : Emits Any h c.listed
    listed_since =
        let chose = anything-until {Q = Any} _ (primary-Adds env (λ s. tt)) c.chosen in
        let copied = anything-until {Q = Any} _ (backup-Adds env (λ s. tt) c.disk) c.backed_up in
        let listed =
          anything-until {Q = Any} _ (discover_partitions-Adds env (λ s. tt) c.disk) c.found in
        Emits-trans chose (Emits-trans copied (Emits-trans (event tt nothing) listed))

    Course-Captured :
        (exists : ℕ → Bool)
        → Settled env c.disk exists
        → (d : ℕ) → d < 128
        → exists (1 + d) ≡ true
        → Captured (1 + count exists 1 d) (partition_device c.disk (1 + d)) h final
    Course-Captured exists settled d lt there =
        let place = present-At exists c.disk 128 1 1 d lt there in
        let round =
          capture_parts-Captured c.parts 1 [] c.fixed c.listed (ap (λ r. r.0) c.looped)
            (rw (parts_listed exists settled) place) in
        rw (sym c.described, sym (ap (λ r. r.1) c.looped))
          (Captured-within listed_since round (anything _ _ (describe-Any c.meta)))

  -- the course of a run of the steps, as a pair with what it leaves
  pub course :
      (h : History)
      → (capture_steps env client resp h).0 ≡ ok tt
      → Course env client resp h (capture_steps env client resp h).1
  course h e =
      capture_steps-Course env client resp h _ (returns (capture_steps env client resp) h e)

  pub course-disk :
      (h : History) (e : (capture_steps env client resp h).0 ≡ ok tt) {disk : Bytes}
      → (Disk.primary env h).0 ≡ ok disk
      → (course h e).disk ≡ disk
  course-disk h e chosen = ok-injective (sym (ap (λ r. r.0) (course h e).chosen) ∙ chosen)

  -- If the steps of `Capture` return no error and whether a partition of the chosen disk exists does
  -- not change meanwhile, then they capture each existing partition among the first 128 under the
  -- number 1 + the count of the existing partitions in front of it.
  pub capture_steps-Captured :
      (h : History) (disk : Bytes) (exists : ℕ → Bool)
      → (capture_steps env client resp h).0 ≡ ok tt
      → (Disk.primary env h).0 ≡ ok disk
      → Settled env disk exists
      → (d : ℕ) → d < 128
      → exists (1 + d) ≡ true
      → Captured
          (1 + count exists 1 d)
          (partition_device disk (1 + d))
          h
          (capture_steps env client resp h).1
  capture_steps-Captured h disk exists e chosen settled d lt there =
      let same = course-disk h e chosen in
      rw (sym same) (Course-Captured (course h e) exists (rw same settled) d lt there)

  -- If moreover a number in front of an existing partition does not exist, these steps capture that
  -- partition under a number that is smaller than its own.
  pub capture_gap :
      (h : History) (disk : Bytes) (exists : ℕ → Bool)
      → (capture_steps env client resp h).0 ≡ ok tt
      → (Disk.primary env h).0 ≡ ok disk
      → Settled env disk exists
      → (d : ℕ) → d < 128
      → exists (1 + d) ≡ true
      → (g : ℕ) → 1 ≤ g
      → g < 1 + d
      → exists g ≡ false
      → (n : ℕ) × (n < 1 + d)
        × Captured n (partition_device disk (1 + d)) h (capture_steps env client resp h).1
  capture_gap h disk exists e chosen settled d lt there g lo hi gap =
      let small = count_gap exists 1 d g lo hi gap in
      (
        1 + count exists 1 d,
        omega arith,
        capture_steps-Captured h disk exists e chosen settled d lt there,
      )
