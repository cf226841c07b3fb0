-- ===== src/Actions/ByteReader/Drained.antt =====
-- A body made by `bytesReader` of agent/internal/actions/sys.go is read to its end.
use fos_next.Prelude.{
  ℕ, zero, suc, ◌+◌, ◌-◌, ◌≤◌, ◌<◌, true, false, List, [], ◌∷◌, ◌++◌, Bytes, leb, ltb, ◌==◌, length,
  take, drop, min, ◌≡◌, refl, sym, ap, ◌∙◌, arith, All, take-append-drop, length-take, length-drop,
  Bool-cases, inl, inr,
}
use fos_next.Actions.ByteReader.{
  bytes_reader_of, read_slice, LimitedReader, bytes_reader, read_limited, read_all_sized,
}

-- the reader of `b` with `pos` bytes read
abbrev at_pos : Bytes → ℕ → LimitedReader
at_pos b pos = record { source = record { content = b; pos = pos }; left = length b - pos }

drop-nil : (n : ℕ) → drop {A = ℕ} n [] ≡ []
drop-nil zero = refl
drop-nil (suc n) = refl

drop-drop : (j k : ℕ) (b : Bytes) → drop j (drop k b) ≡ drop (k + j) b
drop-drop j zero b = let e : 0 + j ≡ j = omega arith in rw e refl
drop-drop j (suc k) [] = drop-nil j ∙ sym (drop-nil (suc k + j))
drop-drop j (suc k) (x ∷ b) =
    let e : suc k + j ≡ suc (k + j) = omega arith in rw e (drop-drop j k b)

drop_all : (n : ℕ) (b : Bytes) → length b ≤ n → drop n b ≡ []
drop_all n [] h = drop-nil n
drop_all zero (x ∷ b) h = absurd (omega arith)
drop_all (suc n) (x ∷ b) h = drop_all n b (omega arith)

at_end :
    (b : Bytes) (pos size : ℕ)
    → length b ≤ pos
    → read_limited size (at_pos b pos) ≡ (record { bytes = []; eof = true }, at_pos b pos)
unfolding read_limited
at_end b pos size h = let e : (length b - pos == 0) ≡ true = ground arith in rw e

before_end :
    (b : Bytes) (pos size : ℕ)
    → pos < length b
    → read_limited size (at_pos b pos) ≡ (
      record { bytes = take (min size (length b - pos)) (drop pos b); eof = false },
      at_pos b (pos + min size (length b - pos)),
    )
unfolding read_limited read_slice
before_end b pos size h =
    let p : (length b - pos == 0) ≡ false = ground arith in
    let q : leb (length b) pos ≡ false = ground arith in
    let k : length (take (min size (length b - pos)) (drop pos b)) ≡ min size (length b - pos) =
      omega (arith, length-take (min size (length b - pos)) (drop pos b), length-drop pos b) in
    let l : length b - pos - min size (length b - pos)
        ≡ length b - (pos + min size (length b - pos)) =
      omega arith in
    rw (p, q, k, l)

drains :
    (b : Bytes) (sizes : List ℕ) (pos : ℕ)
    → All (λ size. 0 < size) sizes
    → pos ≤ length b
    → length b - pos < length sizes
    → read_all_sized sizes (at_pos b pos) ≡ (drop pos b, true)
unfolding read_all_sized
drains b [] pos h le lt = absurd (omega arith)
drains b (size ∷ sizes) pos (h, hs) le lt = elim (Bool-cases (ltb pos (length b))) [
  | inl y ↦
      let k = min size (length b - pos) in
      let inside : pos < length b = ground arith in
      let rest = drains b sizes (pos + k) hs (omega arith) (omega arith) in
      let parts = ap (λ l. take k (drop pos b) ++ l) (drop-drop k pos b) in
      rw (before_end b pos size inside, rest)
        (ap (λ l. (l, true)) (sym parts ∙ take-append-drop k (drop pos b)))
  | inr n ↦
      let over : length b ≤ pos = ground arith in
      rw (at_end b pos size over, drop_all pos b over) refl
]

-- Whatever buffers a body made by `bytesReader` is read into, one byte long or more, it yields exactly
-- the bytes of the slice and then `io.EOF`, which comes within one read more than there are bytes.
pub bytes_reader_drains :
    (b : Bytes) (sizes : List ℕ)
    → All (λ size. 0 < size) sizes
    → length b < length sizes
    → read_all_sized sizes (bytes_reader b) ≡ (b, true)
unfolding bytes_reader bytes_reader_of
bytes_reader_drains b sizes h lt =
    let e : length b - 0 ≡ length b = omega arith in
    rw (← e) (drains b sizes 0 h (omega arith) (omega arith))
