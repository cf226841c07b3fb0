-- ===== src/Partition/Highest.antt =====
-- The partition that `ExpandLast` of agent/internal/partition/partition.go grows.
use fos_next.Prelude.{
  ℕ, zero, suc, ◌≤◌, false, List, [], ◌∷◌, Bytes, codes, ltb, if◌then◌else◌, ok, ◌≡◌, refl, sym,
  ◌∙◌, ◌⊎◌, inl, inr, arith, Bool-cases, All, In, here, there, subst,
}
use fos_next.Strings.{cut, split}
use fos_next.World.{History, Env, pure, fail, output, wrapped}
use fos_next.World.Gives.{bind-eq-ok, wrapped-eq-ok, ok-injective}
use fos_next.Partition.{sscan_number, last_number, found_number, last_partition_number}

-- the number that a line of `parted -m` starts with, in front of a colon, or else 0
abbrev pub number : Bytes → ℕ
number line = let (field, _, found) = cut line b':' in if found then sscan_number field else 0

-- A number that a line has, and that no line exceeds.
pub record Highest (lines : List Bytes) (n : ℕ) : Type 0 where
  pub positive : 1 ≤ n
  pub line : Bytes
  pub listed : In line lines
  pub has : number line ≡ n
  pub most : All (λ l. number l ≤ n) lines

-- the number so far, behind a line
larger : ℕ → Bytes → ℕ
larger last line = if ltb last (number line) then number line else last

larger_bounds :
    (last : ℕ) (line : Bytes)
    → (last ≤ larger last line)
      × (number line ≤ larger last line)
      × ((larger last line ≡ last) ⊎ (larger last line ≡ number line))
unfolding larger
larger_bounds last line = elim (Bool-cases (ltb last (number line))) [
  | inl y ↦ rw y (ground arith, ground arith, inr refl)
  | inr n ↦ rw n (ground arith, ground arith, inl refl)
]

last_number-larger :
    (line : Bytes) (lines : List Bytes) (last : ℕ)
    → last_number (line ∷ lines) last ≡ last_number lines (larger last line)
unfolding last_number larger
last_number-larger line lines last = elim (Bool-cases (cut line b':').2) [
  | inl y ↦ rw y refl
  | inr n ↦ let stays : ltb last 0 ≡ false = ground arith in rw (n, stays) refl
]

-- What the loop finds: no number is larger, and it is the one it started with or that of a line.
record Found (lines : List Bytes) (last n : ℕ) : Type 0 where
  above : last ≤ n
  most : All (λ l. number l ≤ n) lines
  from : (n ≡ last) ⊎ ((line : Bytes) × In line lines × (number line ≡ n))

last_number-Found : (lines : List Bytes) (last : ℕ) → Found lines last (last_number lines last)
last_number-Found [] last =
    unfold last_number in record { above = omega arith; most = tt; from = inl refl }
last_number-Found (line ∷ lines) last =
    let rest = last_number-Found lines (larger last line) in
    let (a, b, c) = larger_bounds last line in
    let r = last_number lines (larger last line) in
    let above_rest = rest.above in
    let from_line : (r ≡ last) ⊎ ((l : Bytes) × In l (line ∷ lines) × (number l ≡ r)) =
      elim rest.from [
        | inr (l, i, q) ↦ inr (l, there i, q)
        | inl q ↦ elim c [ inl same ↦ inl (q ∙ same) | inr new ↦ inr (line, here, sym (q ∙ new)) ]
      ] in
    rw (last_number-larger line lines last)
      (record { above = omega arith; most = (omega arith, rest.most); from = from_line })

found_number-eq-ok :
    (disk : Bytes) (m n : ℕ) (h : History) → (found_number disk m h).0 ≡ ok n → (m ≡ n) × (1 ≤ n)
unfolding found_number pure fail
found_number-eq-ok disk zero n h e = absurd (cc e)
found_number-eq-ok disk (suc m) n h e = let q = ok-injective e in (q, omega arith)

-- A partition number that `lastPartitionNumber` returns is that of a line that `parted` printed, is
-- at least 1, and no line has a larger one.
pub last_partition_number-Highest :
    (env : Env) (disk : Bytes) (h : History) (n : ℕ)
    → (last_partition_number env disk h).0 ≡ ok n
    → (out : Bytes) × ((output env
          (codes "parted")
          (codes "-m" ∷ codes "-s" ∷ disk ∷ codes "print" ∷ [])
          h).0
        ≡ ok out)
      × Highest (split out b'\n') n
unfolding last_partition_number
last_partition_number-Highest env disk h n e =
    let (out, q, w) =
      bind-eq-ok
        (wrapped (codes "parted print: ")
          (output env (codes "parted") (codes "-m" ∷ codes "-s" ∷ disk ∷ codes "print" ∷ [])))
        _ h e in
    let (same, one) = found_number-eq-ok disk (last_number (split out b'\n') 0) n _ (rw w at e) in
    let f = subst (Found (split out b'\n') 0) same (last_number-Found (split out b'\n') 0) in
    elim f.from [
      | inl z ↦ absurd (omega arith)
      | inr (line, i, has) ↦ (
        out,
        (wrapped-eq-ok _ _ h q).0,
        record { positive = one; line = line; listed = i; has = has; most = f.most },
      )
    ]
