-- ===== src/Strconv/RoundTrip.antt =====
-- Numbers that `strconv` prints are read back.
use fos_next.Prelude.{
  ℕ, zero, suc, ◌+◌, ◌-◌, ◌*◌, ◌/◌, ◌%◌, ◌^◌, ◌≤◌, ◌<◌, true, false, [], ◌∷◌, ◌++◌, Bytes, ltb, leb,
  ◌≡◌, refl, sym, ap, ◌∙◌, arith, Bool-cases, inl, inr, append_assoc, append-nil,
}
use fos_next.Strings.{is_digit}
use fos_next.Strconv.{digits, itoa, done, scan_uint}

-- One digit in front of a text is added to what was read.
scan_digit :
    (d n : ℕ) (rest : Bytes)
    → d < 10
    → n * 10 + d < 2 ^ 64
    → scan_uint ((b'0' + d) ∷ rest) n ≡ scan_uint rest (n * 10 + d)
unfolding scan_uint is_digit
scan_digit d n rest h lt =
    let p : (leb b'0' (b'0' + d) ≡ true) × (leb (b'0' + d) b'9' ≡ true) = ground arith in
    let q : b'0' + d - b'0' ≡ d = omega arith in
    let r : ltb (2 ^ 64 - 1) (n * 10 + d) ≡ false = ground arith in rw (p.0, p.1, q, r)

pub scan-digits :
    (f n : ℕ) (rest : Bytes)
    → n < f
    → n < 2 ^ 64
    → scan_uint (digits f n ++ rest) 0 ≡ scan_uint rest n
unfolding digits
scan-digits zero n rest h lt = absurd (omega arith)
scan-digits (suc f) n rest h lt = elim (Bool-cases (ltb n 10)) [
  | inl y ↦
      let small : n < 10 = ground arith in
      let z : 0 * 10 + n ≡ n = omega arith in
      rw y (rw z at (scan_digit n 0 rest small (omega arith)))
  | inr o ↦
      let large : 10 ≤ n = ground arith in
      let whole : n / 10 * 10 + n % 10 ≡ n = omega arith in
      let front = scan-digits f (n / 10) ((b'0' + n % 10) ∷ rest) (omega arith) (omega arith) in
      let back = rw whole at (scan_digit (n % 10) (n / 10) rest (omega arith) (omega arith)) in
      rw (o, append_assoc) (front ∙ back)
]

pub scan-itoa : (n : ℕ) → n < 2 ^ 64 → scan_uint (itoa n) 0 ≡ done n
unfolding itoa
scan-itoa n h =
    rw append-nil at (scan-digits (suc n) n [] (omega arith) h) ∙ unfold scan_uint in refl

done_injective : (n k : ℕ) → done n ≡ done k → n ≡ k
done_injective n k e = cc

pub itoa_injective : (n k : ℕ) → n < 2 ^ 64 → k < 2 ^ 64 → itoa n ≡ itoa k → n ≡ k
itoa_injective n k hn hk e =
    done_injective n k (sym (scan-itoa n hn) ∙ ap (λ s. scan_uint s 0) e ∙ scan-itoa k hk)
