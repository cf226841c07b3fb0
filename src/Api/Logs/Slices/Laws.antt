-- ===== src/Api/Logs/Slices/Laws.antt =====
-- What the operations on Go slices do to the entries of the slice.
use fos_next.Prelude.{
  ℕ, zero, suc, ◌+◌, ◌-◌, ◌≤◌, ◌<◌, true, [], ◌∷◌, ◌++◌, ltb, leb, take, drop, length, ◌≡◌, ◌≢◌,
  refl, sym, ap, ◌∙◌, arith, Bool-cases, inl, inr,
}
use fos_next.Wire.{LogEntry}
use fos_next.Api.Logs.Slices.{
  Cells, Heap, Slice, read, contents, with_array, with_cell, shifted, moved, append, drop_oldest,
  advance,
}

pub read-ext :
    (c d : Cells) (off n : ℕ)
    → ((j : ℕ) → off ≤ j → j < off + n → c j ≡ d j)
    → read c off n ≡ read d off n
unfolding read
read-ext c d off zero h = refl
read-ext c d off (suc n) h = rw (
  h off (omega arith) (omega arith),
  read-ext c d (off + 1) n (λ j lo hi. h j (omega arith) (omega arith)),
)

pub read-snoc : (c : Cells) (off n : ℕ) → read c off (suc n) ≡ read c off n ++ c (off + n) ∷ []
unfolding read
read-snoc c off zero = let e : off ≡ off + 0 = omega arith in ap (λ j. c j ∷ []) e
read-snoc c off (suc n) =
    let e : off + 1 + n ≡ off + suc n = omega arith in
    ap (◌∷◌ (c off)) (rw (← e) (read-snoc c (off + 1) n))

-- The cells of one array, read from another index.
pub read-shift :
    (c d : Cells) (off from n : ℕ)
    → ((j : ℕ) → j < n → d (from + j) ≡ c (off + j))
    → read d from n ≡ read c off n
unfolding read
read-shift c d off from zero h = refl
read-shift c d off from (suc n) h =
    let p : from + 0 ≡ from = omega arith in
    let q : off + 0 ≡ off = omega arith in
    let first = rw (p, q) at (h 0 (omega arith)) in
    let rest = read-shift c d (off + 1) (from + 1) n (λ j lt.
      let p' : from + 1 + j ≡ from + suc j = omega arith in
      let q' : off + 1 + j ≡ off + suc j = omega arith in rw (p', q') (h (suc j) (omega arith))) in
    rw (first, rest)

pub length-read : (c : Cells) (off n : ℕ) → length (read c off n) ≡ n
unfolding read
length-read c off zero = refl
length-read c off (suc n) = ap suc (length-read c (off + 1) n)

pub drop-read : (c : Cells) (off k n : ℕ) → k ≤ n → drop k (read c off n) ≡ read c (off + k) (n - k)
unfolding read
drop-read c off zero n h =
    let p : off + 0 ≡ off = omega arith in let q : n - 0 ≡ n = omega arith in rw (p, q)
drop-read c off (suc k) zero h = absurd (omega arith)
drop-read c off (suc k) (suc n) h =
    let p : off + suc k ≡ off + 1 + k = omega arith in
    let q : suc n - suc k ≡ n - k = omega arith in
    rw (p, q) (drop-read c (off + 1) k n (omega arith))

pub take-read : (c : Cells) (off k n : ℕ) → k ≤ n → take k (read c off n) ≡ read c off k
unfolding read
take-read c off zero n h = refl
take-read c off (suc k) zero h = absurd (omega arith)
take-read c off (suc k) (suc n) h = ap (◌∷◌ (c off)) (take-read c (off + 1) k n (omega arith))

-- A slice that the heap can hold: its entries are within its array, which is in use.
pub record Fits (m : Heap) (s : Slice) : Type 0 where
  pub room : s.len ≤ s.cap
  pub used : s.array < m.next

pub with_array_self : (m : Heap) (a : ℕ) (c : Cells) → (with_array m a c).cell a ≡ c
unfolding with_array
with_array_self m a c = ground arith

pub with_array_ne : (m : Heap) (a b : ℕ) (c : Cells) → b ≢ a → (with_array m a c).cell b ≡ m.cell b
unfolding with_array
with_array_ne m a b c n = ground arith

pub with_cell_self : (c : Cells) (i : ℕ) (e : LogEntry) → with_cell c i e i ≡ e
unfolding with_cell
with_cell_self c i e = ground arith

pub with_cell_ne : (c : Cells) (i j : ℕ) (e : LogEntry) → j ≢ i → with_cell c i e j ≡ c j
unfolding with_cell
with_cell_ne c i j e n = ground arith

-- A slice reads on through a write behind it, and then the entry that was written.
pub read-with_cell :
    (c : Cells) (off n : ℕ) (e : LogEntry)
    → read (with_cell c (off + n) e) off (suc n) ≡ read c off n ++ e ∷ []
read-with_cell c off n e =
    read-snoc (with_cell c (off + n) e) off n
    ∙ rw (
      read-ext (with_cell c (off + n) e) c off n
          (λ j lo hi. with_cell_ne c (off + n) j e (λ p. omega arith)),
      with_cell_self,
    )

moved_at : (c : Cells) (off j : ℕ) → moved c off (0 + j) ≡ c (off + j)
unfolding moved
moved_at c off j = let z : 0 + j ≡ j = omega arith in ap (λ i. c (off + i)) z

shifted_at :
    (c : Cells) (off len j : ℕ) → j + 1 < len → shifted c off len (off + j) ≡ c (off + 1 + j)
unfolding shifted
shifted_at c off len j h =
    let p : leb off (off + j) ≡ true = ground arith in
    let q : ltb (off + j + 1) (off + len) ≡ true = ground arith in
    let r : off + j + 1 ≡ off + 1 + j = omega arith in rw (p, q, r)

module _ (grow : ℕ → ℕ) (grows : (n : ℕ) → n < grow n) (e : LogEntry) (m : Heap) (s : Slice) where
  pub append-contents :
      Fits m s → contents (append grow e m s).0 (append grow e m s).1 ≡ contents m s ++ e ∷ []
  unfolding append contents
  append-contents f = elim (Bool-cases (ltb s.len s.cap)) [
    | inl y ↦
        let one : s.len + 1 ≡ suc s.len = omega arith in
        rw (y, one, with_array_self) (read-with_cell (m.cell s.array) s.off s.len e)
    | inr n ↦
        let one : s.len + 1 ≡ suc s.len = omega arith in
        let old =
          read-shift (m.cell s.array) (moved (m.cell s.array) s.off) s.off 0 s.len
            (λ j lt. moved_at (m.cell s.array) s.off j) in
        let new = read-with_cell (moved (m.cell s.array) s.off) 0 s.len e in
        let z : 0 + s.len ≡ s.len = omega arith in
        rw (n, one, with_array_self) ((rw z at new) ∙ ap (λ l. l ++ e ∷ []) old)
  ]

  pub append-Fits : Fits m s → Fits (append grow e m s).0 (append grow e m s).1
  unfolding append with_array
  append-Fits f = record { room = ground (arith, grows s.cap); used = ground arith }

pub drop_oldest-contents :
    (m : Heap) (s : Slice)
    → 0 < s.len
    → contents (drop_oldest m s).0 (drop_oldest m s).1 ≡ drop 1 (contents m s)
unfolding drop_oldest contents
drop_oldest-contents m s h =
    rw (with_array_self, drop-read (m.cell s.array) s.off 1 s.len (omega arith))
      (read-shift (m.cell s.array) (shifted (m.cell s.array) s.off s.len) (s.off + 1) s.off
        (s.len - 1) (λ j lt. shifted_at (m.cell s.array) s.off s.len j (omega arith)))

pub drop_oldest-Fits :
    (m : Heap) (s : Slice) → Fits m s → Fits (drop_oldest m s).0 (drop_oldest m s).1
unfolding drop_oldest with_array
drop_oldest-Fits m s f = record { room = omega (arith, f.room); used = f.used }

pub advance-contents :
    (m : Heap) (s : Slice) (n : ℕ) → n ≤ s.len → contents m (advance n s) ≡ drop n (contents m s)
unfolding advance contents
advance-contents m s n h = sym (drop-read (m.cell s.array) s.off n s.len h)

pub advance-Fits : (m : Heap) (s : Slice) (n : ℕ) → Fits m s → Fits m (advance n s)
unfolding advance
advance-Fits m s n f = record { room = omega (arith, f.room); used = f.used }

pub length-contents : (m : Heap) (s : Slice) → length (contents m s) ≡ s.len
unfolding contents
length-contents m s = length-read (m.cell s.array) s.off s.len

pub take-contents :
    (m : Heap) (s : Slice) (n : ℕ)
    → n ≤ s.len
    → take n (contents m s) ≡ read (m.cell s.array) s.off n
unfolding contents
take-contents m s n h = take-read (m.cell s.array) s.off n s.len h
