-- ===== src/Disk/Largest.antt =====
-- The disk that `Primary` of agent/internal/disk/disk.go chooses.
use fos_next.Prelude.{
  ℤ, pos, negsuc, eq_ℤ, true, false, List, [], ◌∷◌, Bytes, ok, ◌≡◌, refl, All, In, here, there,
  Bool-cases, inl, inr, arith,
}
use fos_next.World.{History, Env, pure, fail}
use fos_next.World.Gives.{bind-eq-ok, ok-injective}
use fos_next.Disk.{Disk, less_ℤ, before, insert, sort, first_path, list, primary}

-- `a` is at least `b`.
abbrev pub AtLeast : ℤ → ℤ → Type 0
AtLeast a b = less_ℤ a b ≡ false

AtLeast-trans : (a b c : ℤ) → AtLeast a b → AtLeast b c → AtLeast a c
unfolding less_ℤ
AtLeast-trans (pos a) (pos b) (pos c) p q = ground arith
AtLeast-trans (pos a) (pos b) (negsuc c) p q = refl
AtLeast-trans (pos a) (negsuc b) (pos c) p q = absurd (cc q)
AtLeast-trans (pos a) (negsuc b) (negsuc c) p q = refl
AtLeast-trans (negsuc a) (pos b) c p q = absurd (cc p)
AtLeast-trans (negsuc a) (negsuc b) (pos c) p q = absurd (cc q)
AtLeast-trans (negsuc a) (negsuc b) (negsuc c) p q = ground arith

AtLeast-refl : (a : ℤ) → AtLeast a a
unfolding less_ℤ
AtLeast-refl (pos a) = ground arith
AtLeast-refl (negsuc a) = ground arith

less-AtLeast : (a b : ℤ) → less_ℤ a b ≡ true → AtLeast b a
unfolding less_ℤ
less-AtLeast (pos a) (pos b) p = ground arith
less-AtLeast (pos a) (negsuc b) p = absurd (cc p)
less-AtLeast (negsuc a) (pos b) p = refl
less-AtLeast (negsuc a) (negsuc b) p = ground arith

eq-AtLeast : (a b : ℤ) → eq_ℤ a b ≡ true → AtLeast a b × AtLeast b a
unfolding less_ℤ
eq-AtLeast (pos a) (pos b) p = ground arith
eq-AtLeast (pos a) (negsuc b) p = absurd (cc p)
eq-AtLeast (negsuc a) (pos b) p = absurd (cc p)
eq-AtLeast (negsuc a) (negsuc b) p = ground arith

before-AtLeast : (a b : Disk) → before a b ≡ true → AtLeast a.bytes b.bytes
unfolding before
before-AtLeast a b p = elim (Bool-cases (eq_ℤ a.bytes b.bytes)) [
  | inl y ↦ (eq-AtLeast a.bytes b.bytes y).0
  | inr n ↦ less-AtLeast b.bytes a.bytes (rw n at p)
]

not_before-AtLeast : (a b : Disk) → before a b ≡ false → AtLeast b.bytes a.bytes
unfolding before
not_before-AtLeast a b p = elim (Bool-cases (eq_ℤ a.bytes b.bytes)) [
  | inl y ↦ (eq-AtLeast a.bytes b.bytes y).1
  | inr n ↦ (rw n at p)
]

-- No disk of the list is larger than `d`.
abbrev pub Covers : Disk → List Disk → Type 0
Covers d = All (λ e. AtLeast d.bytes e.bytes)

Covers-trans : (d e : Disk) (es : List Disk) → AtLeast d.bytes e.bytes → Covers e es → Covers d es
Covers-trans d e [] p k = tt
Covers-trans d e (x ∷ xs) p (k, ks) =
    (AtLeast-trans d.bytes e.bytes x.bytes p k, Covers-trans d e xs p ks)

module _ (P : Disk → Type 0) where
  insert-All : (d : Disk) (es : List Disk) → P d → All P es → All P (insert d es)
  unfolding insert
  insert-All d [] p k = (p, tt)
  insert-All d (e ∷ es) p (k, ks) = elim (Bool-cases (before e d)) [
    | inl y ↦ rw y (k, insert-All d es p ks)
    | inr n ↦ rw n (p, (k, ks))
  ]

  All-insert : (d : Disk) (es : List Disk) → All P (insert d es) → P d × All P es
  unfolding insert
  All-insert d [] k = k
  All-insert d (e ∷ es) k = elim (Bool-cases (before e d)) [
    | inl y ↦ let (ke, more) = rw y at k in let (kd, kes) = All-insert d es more in (kd, (ke, kes))
    | inr n ↦ (rw n at k)
  ]

  sort-All : (ds : List Disk) → All P ds → All P (sort ds)
  unfolding sort
  sort-All [] k = tt
  sort-All (d ∷ ds) (k, ks) = insert-All d (sort ds) k (sort-All ds ks)

  All-sort : (ds : List Disk) → All P (sort ds) → All P ds
  unfolding sort
  All-sort [] k = tt
  All-sort (d ∷ ds) k = let (p, ps) = All-insert d (sort ds) k in (p, All-sort ds ps)

  everywhere : (ds : List Disk) → ((d : Disk) → In d ds → P d) → All P ds
  everywhere [] f = tt
  everywhere (d ∷ ds) f = (f d here, everywhere ds (λ e i. f e (there i)))

-- The first disk of a list is the largest.
data HeadLargest : List Disk → Type 0 where
  none : HeadLargest []
  leads : (d : Disk) (ds : List Disk) → Covers d ds → HeadLargest (d ∷ ds)

insert-HeadLargest : (d : Disk) (es : List Disk) → HeadLargest es → HeadLargest (insert d es)
unfolding insert
insert-HeadLargest d [] k = leads d [] tt
insert-HeadLargest d (e ∷ es) (leads _ _ k) = elim (Bool-cases (before e d)) [
  | inl y ↦ rw y (
      leads e (insert d es)
        (insert-All (λ x. AtLeast e.bytes x.bytes) d es (before-AtLeast e d y) k))
  | inr n ↦
      let larger = not_before-AtLeast e d n in
      rw n (leads d (e ∷ es) (larger, Covers-trans d e es larger k))
]

sort-HeadLargest : (ds : List Disk) → HeadLargest (sort ds)
unfolding sort
sort-HeadLargest [] = none
sort-HeadLargest (d ∷ ds) = insert-HeadLargest d (sort ds) (sort-HeadLargest ds)

-- The path is that of a disk that lsblk listed, and no disk listed is larger.
pub record Chosen (ds : List Disk) (path : Bytes) : Type 0 where
  pub disk : Disk
  pub listed : In disk ds
  pub named : disk.path ≡ path
  pub largest : Covers disk ds

first-Chosen :
    (ds sorted : List Disk) (path : Bytes) (h : History)
    → HeadLargest sorted
    → All (λ e. In e ds) sorted
    → ((P : Disk → Type 0) → All P sorted → All P ds)
    → (first_path sorted h).0 ≡ ok path
    → Chosen ds path
unfolding first_path pure fail
first-Chosen ds [] path h k i back e = absurd (cc e)
first-Chosen ds (d ∷ sorted) path h (leads _ _ k) (i, is) back e = record {
  disk = d;
  listed = i;
  named = ok-injective e;
  largest = back (λ x. AtLeast d.bytes x.bytes) (AtLeast-refl d.bytes, k);
}

-- If `Primary` returns a path, `List` returned disks, and the path is that of one of them that no
-- other of them exceeds in size.
pub primary-Chosen :
    (env : Env) (h : History) (path : Bytes)
    → (primary env h).0 ≡ ok path
    → (ds : List Disk) × ((list env h).0 ≡ ok ds) × Chosen ds path
unfolding primary
primary-Chosen env h path e =
    let (ds, q, w) = bind-eq-ok (list env) (λ disks. first_path (sort disks)) h e in
    (
      ds,
      q,
      first-Chosen ds (sort ds) path _ (sort-HeadLargest ds)
          (sort-All (λ e. In e ds) ds (everywhere (λ e. In e ds) ds (λ d i. i)))
          (λ P. All-sort P ds) (rw w at e),
    )
