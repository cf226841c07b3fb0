-- ===== src/Actions/Capture/Numbering.antt =====
-- The numbers under which `Capture` of agent/internal/actions/actions.go uploads partitions.
use fos_next.Prelude.{
  ℕ, zero, suc, ◌+◌, ◌≤◌, ◌<◌, Bool, true, false, List, ◌∷◌, Bytes, ◌≡◌, refl, inl, inr, arith,
  Bool-cases, if◌then◌else◌,
}
use fos_next.Disk.{partition_device}
use fos_next.Disk.Numbers.{present, devices}

-- A device has a number in a list whose first element is number `k`.
pub data At (n : ℕ) (dev : Bytes) : ℕ → List Bytes → Type 0 where
  first : {devs : List Bytes} → At n dev n (dev ∷ devs)
  next : {k : ℕ} {x : Bytes} {devs : List Bytes} → At n dev (k + 1) devs → At n dev k (x ∷ devs)

-- How many of the `d` numbers from `i` on exist.
abbrev pub count : (ℕ → Bool) → ℕ → ℕ → ℕ
count exists i zero = 0
count exists i (suc d) = (if exists i then 1 else 0) + count exists (i + 1) d

module _ (exists : ℕ → Bool) where
  pub count_bound : (i d : ℕ) → count exists i d ≤ d
  count_bound i zero = omega arith
  count_bound i (suc d) =
      let c = count_bound (i + 1) d in
      elim (Bool-cases (exists i)) [ inl y ↦ rw y (omega arith) | inr o ↦ rw o (omega arith) ]

  pub count_gap : (i d g : ℕ) → i ≤ g → g < i + d → exists g ≡ false → count exists i d < d
  count_gap i zero g le lt e = absurd (omega arith)
  count_gap i (suc d) g le lt e = elim (Bool-cases (exists i)) [
    | inl y ↦
        let other : ¬ (i ≡ g) = (λ p. cc) in
        let c = count_gap (i + 1) d g (omega arith) (omega arith) e in rw y (omega arith)
    | inr o ↦ let c = count_bound (i + 1) d in rw o (omega arith)
  ]

  pub count_all : (i d : ℕ) → ((g : ℕ) → i ≤ g → g < i + d → exists g ≡ true) → count exists i d ≡ d
  count_all i zero f = refl
  count_all i (suc d) f =
      let y = f i (omega arith) (omega arith) in
      let c = count_all (i + 1) d (λ g le lt. f g (omega arith) (omega arith)) in rw y (omega arith)

  -- An existing number has the place that the existing numbers in front of it leave it.
  pub present-At :
      (disk : Bytes) (left i k d : ℕ)
      → d < left
      → exists (i + d) ≡ true
      → At
          (k + count exists i d)
          (partition_device disk (i + d))
          k
          (devices disk (present exists left i))
  present-At disk zero i k d lt e = absurd (omega arith)
  present-At disk (suc left) i k zero lt e =
      let z : i + 0 ≡ i = omega arith in
      let z' : k + 0 ≡ k = omega arith in let y : exists i ≡ true = rw z at e in rw (z, z', y) first
  present-At disk (suc left) i k (suc d) lt e =
      let z : i + suc d ≡ i + 1 + d = omega arith in
      let e' : exists (i + 1 + d) ≡ true = rw z at e in
      elim (Bool-cases (exists i)) [
        | inl y ↦
            let z' : k + (1 + count exists (i + 1) d) ≡ k + 1 + count exists (i + 1) d =
              omega arith in
            rw (z, y, z') (next (present-At disk left (i + 1) (k + 1) d (omega arith) e'))
        | inr o ↦
            let z' : k + (0 + count exists (i + 1) d) ≡ k + count exists (i + 1) d = omega arith in
            rw (z, o, z') (present-At disk left (i + 1) k d (omega arith) e')
      ]
