-- ===== src/Base64/RoundTrip.antt =====
-- `DecodeString` undoes `EncodeToString`.
use fos_next.Prelude.{
  ℕ, ◌+◌, ◌*◌, ◌/◌, ◌%◌, ◌<◌, ◌≡◌, refl, false, [], ◌∷◌, some, Bytes, arith, All, ◌==◌, ◌||◌, ◌&&◌,
}
use fos_next.Base64.{
  letter, unletter, encode, decode, decode_groups, drop_line_ends, triple, single, double, is_nil,
}

-- a byte of a Go string
abbrev pub IsByte : ℕ → Type 0
IsByte c = c < 256

unletter-letter : (v : ℕ) → v < 64 → unletter (letter v) ≡ some v
unfolding letter unletter
unletter-letter v h = ground arith

-- a letter is no padding and no line end
letter_plain :
    (v : ℕ)
    → v < 64
    → ((letter v == b'=') ≡ false) × ((letter v == b'\r' || letter v == b'\n') ≡ false)
unfolding letter
letter_plain v h = ground arith

drop-letter :
    (v : ℕ) (s : Bytes) → v < 64 → drop_line_ends (letter v ∷ s) ≡ letter v ∷ drop_line_ends s
unfolding drop_line_ends
drop-letter v s h = rw ((letter_plain v h).1) refl

not_padding : (rest : Bytes) (v : ℕ) → v < 64 → (is_nil rest && (letter v == b'=')) ≡ false
unfolding is_nil
not_padding [] v h = (letter_plain v h).0
not_padding (c ∷ rest) v h = refl

drop-encode : (s : Bytes) → All IsByte s → drop_line_ends (encode s) ≡ encode s
unfolding encode
drop-encode [] h = unfold drop_line_ends in refl
drop-encode (a ∷ []) (ha, _) =
    rw (drop-letter (a / 4) _ (omega arith), drop-letter (a % 4 * 16) _ (omega arith))
      (unfold drop_line_ends in refl)
drop-encode (a ∷ b ∷ []) (ha, (hb, _)) =
    rw
      (
        drop-letter (a / 4) _ (omega arith),
        drop-letter (a % 4 * 16 + b / 16) _ (omega arith),
        drop-letter (b % 16 * 4) _ (omega arith),
      )
      (unfold drop_line_ends in refl)
drop-encode (a ∷ b ∷ c ∷ rest) (ha, (hb, (hc, hr))) = rw (
  drop-letter (a / 4) _ (omega arith),
  drop-letter (a % 4 * 16 + b / 16) _ (omega arith),
  drop-letter (b % 16 * 4 + c / 64) _ (omega arith),
  drop-letter (c % 64) _ (omega arith),
  drop-encode rest hr,
)

decode_groups-encode : (s : Bytes) → All IsByte s → decode_groups (encode s) ≡ some s
unfolding encode decode_groups is_nil single double triple
decode_groups-encode [] h = refl
decode_groups-encode (a ∷ []) (ha, _) =
    let one : a / 4 * 4 + a % 4 * 16 / 16 ≡ a = omega arith in
    rw (unletter-letter (a / 4) (omega arith), unletter-letter (a % 4 * 16) (omega arith), one)
decode_groups-encode (a ∷ b ∷ []) (ha, (hb, _)) =
    let one : a / 4 * 4 + (a % 4 * 16 + b / 16) / 16 ≡ a = omega arith in
    let two : (a % 4 * 16 + b / 16) % 16 * 16 + b % 16 * 4 / 4 ≡ b = omega arith in
    rw (
      (letter_plain (b % 16 * 4) (omega arith)).0,
      unletter-letter (a / 4) (omega arith),
      unletter-letter (a % 4 * 16 + b / 16) (omega arith),
      unletter-letter (b % 16 * 4) (omega arith),
      one,
      two,
    )
decode_groups-encode (a ∷ b ∷ c ∷ rest) (ha, (hb, (hc, hr))) =
    let one : a / 4 * 4 + (a % 4 * 16 + b / 16) / 16 ≡ a = omega arith in
    let two : (a % 4 * 16 + b / 16) % 16 * 16 + (b % 16 * 4 + c / 64) / 4 ≡ b = omega arith in
    let three : (b % 16 * 4 + c / 64) % 4 * 64 + c % 64 ≡ c = omega arith in
    rw (not_padding (encode rest) (c % 64) (omega arith)) (
      rw (
        unletter-letter (a / 4) (omega arith),
        unletter-letter (a % 4 * 16 + b / 16) (omega arith),
        unletter-letter (b % 16 * 4 + c / 64) (omega arith),
        unletter-letter (c % 64) (omega arith),
        decode_groups-encode rest hr,
        one,
        two,
        three,
      ))

-- `DecodeString` undoes `EncodeToString`, whatever bytes the text holds.
pub decode-encode : (s : Bytes) → All IsByte s → decode (encode s) ≡ some s
unfolding decode
decode-encode s h = rw (drop-encode s h) (decode_groups-encode s h)
