-- ===== src/Actions/Deploy/Downloads.antt =====
-- How often `Deploy` of agent/internal/actions/actions.go downloads.
use fos_next.Prelude.{
  ℕ, zero, suc, ◌+◌, ◌≤◌, ◌<◌, ◌^◌, ◌≡◌, ◌≢◌, ◌++◌, ◌&&◌, Bool, Bool-cases, inl, inr, pos_part,
  Option, none, some, true, Bytes, codes, refl, arith, append_injective,
}
use native.Mathlib.Decide.{ℕ_discrete as dec_eq}
use fos_next.Strings.{equal}
use fos_next.Strings.Equal.{equal-eq, equal_refl}
use fos_next.Strconv.{itoa}
use fos_next.Strconv.RoundTrip.{itoa_injective}
use fos_next.Wire.{HandshakeResponse, Payload}
use fos_next.World.{http, Request, Reply, History, Env, ◌>>◌}
use fos_next.World.Adds.{Adds, adds_rules}
use fos_next.World.Counts.{
  one, counted, Quiet, local, short, Counts, Counts-Quiet, Counts-weaken, Counts-attempt,
  Counts-bind, Counts-result, Counts-send, Counts-wrapped,
}
use fos_next.Api.{Client, post_request, download_request, download_part}
use fos_next.Disk
use fos_next.Disk.Calls.{primary-Adds}
use fos_next.Partition.Calls.{restore-Adds as table_restore-Adds, expand_last-Adds}
use fos_next.Actions.Parts.{failing}
use fos_next.Actions.Parts.Events.{failing-Adds, progress_fn-Adds}
use fos_next.Actions.Deploy.Calls.{read_all-Adds, restore_sentinel-Adds, restore_image-Adds}
use fos_next.Actions.Deploy.{
  restore_sentinel, restore_image, try_part, attempt_loop, deploy_part, deploy_parts, deploy_table,
  grow_last, deploy_steps,
}

-- the URL of a part of an image
abbrev pub download_url : Client → Bytes → ℕ → Bytes
download_url c image_id part =
    c.base ++ codes "/images/" ++ image_id ++ codes "/download?part=" ++ itoa part

-- a download of that part
abbrev pub asks_for : Client → Bytes → ℕ → Request → Bool
asks_for c image_id part r =
    equal r.method (codes "GET") && equal r.url (download_url c image_id part)

-- The downloads of a part among the events of a history.
abbrev pub downloads : Client → Bytes → ℕ → History → ℕ
downloads c image_id part = counted (asks_for c image_id part)

-- what `n` rounds cost at most, where each costs at most `c`
abbrev rounds_cost : ℕ → ℕ → ℕ
rounds_cost c zero = 0
rounds_cost c (suc n) = c + rounds_cost c n

module _ (env : Env) (client : Client) (resp : HandshakeResponse) (k : ℕ) where
  abbrev asks : Request → Bool
  asks = asks_for client resp.image_id k

  -- 1 for a download of part `k`, 0 for one of another part
  abbrev cost : ℕ → ℕ
  cost part = one asks (download_request client resp.image_id part 0)

  cost-once : (part : ℕ) → cost part ≤ 1
  cost-once part = ground arith

  cost-other : (part : ℕ) → part < 2 ^ 64 → k < 2 ^ 64 → part ≢ k → cost part ≡ 0
  unfolding download_request
  cost-other part hp hk ne =
      elim (Bool-cases
        (equal (download_url client resp.image_id part) (download_url client resp.image_id k))) [
          | inr n ↦ rw (equal_refl (codes "GET"), n) refl
          | inl y ↦ absurd (
              ne (
                itoa_injective part k hp hk
                  (append_injective _ (itoa part) (itoa k) (equal-eq _ _ y))))
        ]

  post_short :
      (path : Bytes) (body : Payload) → Quiet asks (http (post_request client path body true))
  unfolding equal post_request
  post_short path body = short _ refl

  download_part-Counts :
      (part : ℕ) → Counts asks (cost part) (download_part env client resp.image_id part 0)
  unfolding download_part
  download_part-Counts part =
      Counts-weaken (cost part + 0) (cost part) _ (omega arith) (
        Counts-bind (cost part) 0 _ _ (Counts-send env _) (λ r. Counts-Quiet _ (search adds_rules)))

  sentinel-Quiet :
      (dev : Bytes) (body : Reply) → Adds (Quiet asks) (restore_sentinel env client resp dev body)
  sentinel-Quiet = restore_sentinel-Adds env local client resp

  image-Quiet :
      (part : ℕ) (dev : Bytes) (body : Reply)
      → Adds (Quiet asks) (restore_image env client resp part dev body)
  image-Quiet =
      restore_image-Adds env local client resp
        (progress_fn-Adds env local client resp (λ pct bpm. post_short _ _))

  primary-Quiet : Adds (Quiet asks) (failing (codes "disk detection failed: ") (Disk.primary env))
  primary-Quiet = search (failing-Adds, primary-Adds, local)

  -- what the loop over the parts costs at most
  abbrev parts_cost : ℕ → ℕ → ℕ
  parts_cost zero part = 0
  parts_cost (suc left) part = rounds_cost (cost part) 3 + parts_cost left (part + 1)

  parts_cost-behind : (left part : ℕ) → k < part → part + left ≤ 2 ^ 64 → parts_cost left part ≡ 0
  parts_cost-behind zero part lt le = refl
  parts_cost-behind (suc left) part lt le =
      let other = cost-other part (omega arith) (omega arith) (λ e. absurd (omega (arith, e))) in
      omega (arith, other, parts_cost-behind left (part + 1) (omega arith) (omega arith))

  parts_cost-once : (left part : ℕ) → k < 2 ^ 64 → part + left ≤ 2 ^ 64 → parts_cost left part ≤ 3
  parts_cost-once zero part hk le = omega arith
  parts_cost-once (suc left) part hk le = elim (dec_eq part k) [
    | yes p ↦
        omega (
          arith,
          cost-once part,
          parts_cost-behind left (part + 1) (omega (arith, p)) (omega arith),
        )
    | no ne ↦ omega (
      arith,
      cost-other part (omega arith) hk ne,
      parts_cost-once left (part + 1) hk (omega arith),
    )
  ]

  module _ (disk : Bytes) where
    try_part-Counts : (part : ℕ) → Counts asks (cost part) (try_part env client resp disk part)
    unfolding try_part
    try_part-Counts part = Counts-weaken (cost part + 0) (cost part) _ (omega arith) (
        Counts-bind (cost part) 0 _ _ (download_part-Counts part)
          (λ body. Counts-Quiet _ (search (adds_rules, sentinel-Quiet, image-Quiet))))

    attempt_loop-Counts :
        (part rounds : ℕ) (e : Option Bytes)
        → Counts asks
            (rounds_cost (cost part) rounds)
            (attempt_loop env client resp disk part rounds e)
    unfolding attempt_loop
    attempt_loop-Counts part zero e = Counts-Quiet _ (search adds_rules)
    attempt_loop-Counts part (suc rounds) e =
        let more = rounds_cost (cost part) rounds in
        Counts-bind (cost part) more _ _ (Counts-attempt (cost part) _ (try_part-Counts part)) (λ r.
          Counts-result more r _ _
            (λ _. Counts-weaken 0 more _ (omega arith) (Counts-Quiet _ (search adds_rules)))
            (λ x. Counts-weaken (0 + more) more _ (omega arith) (
              Counts-bind 0 more _ _ (Counts-Quiet _ (search (adds_rules, local)))
                (λ _. attempt_loop-Counts part rounds (some x)))))

    deploy_part-Counts :
        (part : ℕ) → Counts asks (rounds_cost (cost part) 3) (deploy_part env client resp disk part)
    unfolding deploy_part
    deploy_part-Counts part =
        let c = rounds_cost (cost part) 3 in
        Counts-weaken (c + 0) c _ (omega arith) (
          Counts-bind c 0 _ _ (attempt_loop-Counts part 3 none)
            (λ e. Counts-Quiet _ (search adds_rules)))

    deploy_parts-Counts :
        (left part : ℕ)
        → Counts asks (parts_cost left part) (deploy_parts env client resp disk left part)
    unfolding deploy_parts
    deploy_parts-Counts zero part = Counts-Quiet _ (search adds_rules)
    deploy_parts-Counts (suc left) part =
        Counts-bind (rounds_cost (cost part) 3) (parts_cost left (part + 1)) _ _
          (deploy_part-Counts part) (λ _. deploy_parts-Counts left (part + 1))

    deploy_table-Counts : Counts asks (cost 0) (deploy_table env client resp disk)
    unfolding deploy_table failing
    deploy_table-Counts = Counts-weaken (cost 0 + 0) (cost 0) _ (omega arith) (
        Counts-bind (cost 0) 0 _ _ (Counts-wrapped (cost 0) _ _ (download_part-Counts 0)) (λ body.
          Counts-Quiet _ (search (adds_rules, read_all-Adds, table_restore-Adds, local) depth 8)))

    grow_last-Quiet : Adds (Quiet asks) (grow_last env client resp disk)
    unfolding grow_last
    grow_last-Quiet = search (adds_rules, expand_last-Adds, local)

    behind_table :
        (n : ℕ)
        → Counts asks (cost 0 + (0 + parts_cost n 1)) (
            deploy_table env client resp disk
            >> (grow_last env client resp disk >> deploy_parts env client resp disk n 1))
    behind_table n = Counts-bind (cost 0) (0 + parts_cost n 1) _ _ deploy_table-Counts (λ _.
        Counts-bind 0 (parts_cost n 1) _ _ (Counts-Quiet _ grow_last-Quiet)
          (λ _. deploy_parts-Counts n 1))

  steps-Counts :
      Counts asks
        (0 + (cost 0 + (0 + parts_cost (pos_part resp.part_count) 1)))
        (deploy_steps env client resp)
  unfolding deploy_steps
  steps-Counts =
      let n = pos_part resp.part_count in
      Counts-bind 0 (cost 0 + (0 + parts_cost n 1)) _ _ (Counts-Quiet _ primary-Quiet)
        (λ disk. behind_table disk n)

-- The steps of `Deploy` download the partition table at most once, and each part at most three
-- times, whatever fails. The number of parts is that of an `int`.
pub deploy_steps-downloads :
    (env : Env) (client : Client) (resp : HandshakeResponse) (h : History)
    → pos_part resp.part_count < 2 ^ 63
    → (downloads client resp.image_id 0 (deploy_steps env client resp h).1
        ≤ downloads client resp.image_id 0 h + 1)
      × ((k : ℕ)
          → 1 ≤ k
          → k ≤ pos_part resp.part_count
          → downloads client resp.image_id k (deploy_steps env client resp h).1
            ≤ downloads client resp.image_id k h + 3)
deploy_steps-downloads env client resp h lt =
    let n = pos_part resp.part_count in
    (
      omega (
        arith,
        (steps-Counts env client resp 0).at h,
        cost-once env client resp 0 0,
        parts_cost-behind env client resp 0 n 1 (omega arith) (omega arith),
      ),
      λ k lo hi. omega (
        arith,
        (steps-Counts env client resp k).at h,
        cost-other env client resp k 0 (omega arith) (omega arith) (λ e. absurd (omega (arith, e))),
        parts_cost-once env client resp k n 1 (omega arith) (omega arith),
      ),
    )
