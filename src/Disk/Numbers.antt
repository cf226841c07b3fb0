-- ===== src/Disk/Numbers.antt =====
-- The partition numbers that `DiscoverPartitions` of agent/internal/disk/disk.go finds.
use fos_next.Prelude.{
  append_injective, ℕ, zero, suc, ◌+◌, ◌^◌, ◌<◌, Bool, true, false, List, [], ◌∷◌, Option, none,
  some, Bytes, ok, ◌≡◌, refl, sym, ◌∙◌, ap, inl, inr, Bool-cases, Option-cases, if◌then◌else◌,
}
use fos_next.Strings.{last}
use fos_next.Strconv.{itoa, base}
use fos_next.Strconv.RoundTrip.{itoa_injective}
use fos_next.World.{stat, Env, History, pure, match_option, ◌>>=◌, sys, call}
use fos_next.Disk.{partition_device, discover_from, discover_partitions, is_digit?}

-- Two numbers below 2 ^ 64 have different device paths.
pub partition_device_injective :
    (disk : Bytes) (n k : ℕ)
    → n < 2 ^ 64
    → k < 2 ^ 64
    → partition_device disk n ≡ partition_device disk k
    → n ≡ k
unfolding partition_device
partition_device_injective disk n k hn hk e = elim (Bool-cases (is_digit? (last (base disk)))) [
  | inl y ↦
      let same = append_injective disk (b'p' ∷ itoa n) (b'p' ∷ itoa k) (rw y at e) in
      itoa_injective n k hn hk (cc same)
  | inr o ↦ itoa_injective n k hn hk (append_injective disk (itoa n) (itoa k) (rw o at e))
]

-- The numbers with a device among the `left` numbers from `i` on.
abbrev pub present : (ℕ → Bool) → ℕ → ℕ → List ℕ
present exists zero i = []
present exists (suc left) i =
    let rest = present exists left (i + 1) in if exists i then i ∷ rest else rest

abbrev pub devices : Bytes → List ℕ → List Bytes
devices disk [] = []
devices disk (n ∷ ns) = partition_device disk n ∷ devices disk ns

abbrev pub is_none : Option Bytes → Bool
is_none none = true
is_none (some e) = false

-- Whether the device of a number exists does not change while the agent looks.
abbrev pub Settled : Env → Bytes → (ℕ → Bool) → Type 0
Settled env disk exists =
    (h : History) (n : ℕ) → is_none (env.answer h (stat (partition_device disk n))).fault ≡ exists n

module _ (env : Env) (disk : Bytes) (exists : ℕ → Bool) (settled : Settled env disk exists) where
  discover_from-present :
      (left i : ℕ) (h : History)
      → (discover_from env disk left i h).0 ≡ ok (devices disk (present exists left i))
  unfolding discover_from ◌>>=◌ sys pure match_option
  discover_from-present zero i h = refl
  discover_from-present (suc left) i h =
      let h1 = call (stat (partition_device disk i)) ∷ h in
      let rest = discover_from-present left (i + 1) h1 in
      let s = settled h i in
      elim (Option-cases (env.answer h (stat (partition_device disk i))).fault) [
        | inl q ↦ let y : exists i ≡ true = sym s ∙ ap is_none q in rw (rest, q, y) refl
        | inr (x, q) ↦ let y : exists i ≡ false = sym s ∙ ap is_none q in rw (rest, q, y) refl
      ]

  -- If whether the device of a number exists does not change meanwhile, `DiscoverPartitions`
  -- succeeds and returns the devices of all numbers from 1 to 128 that exist, in ascending order.
  pub discover_partitions-present :
      (h : History) → (discover_partitions env disk h).0 ≡ ok (devices disk (present exists 128 1))
  unfolding discover_partitions
  discover_partitions-present h = discover_from-present 128 1 h
