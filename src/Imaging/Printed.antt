-- ===== src/Imaging/Printed.antt =====
-- Status lines of partclone that `readStatus` of agent/internal/imaging/imaging.go reads.
use fos_next.Prelude.{
  ℕ, ◌*◌, ◌^◌, ℤ, true, false, List, [], ◌∷◌, ◌++◌, none, some, Bytes, codes, ◌==◌, ◌≡◌, refl, ap,
  ◌∙◌, arith, All, All-append,
}
use fos_next.Strings.{
  is_space, is_digit, equal, upper, to_upper, trim_left, trim_right, trim_space, split,
}
use fos_next.Strings.Solid.{Solid, solid, solid-Solid, trim_space-Solid}
use fos_next.World.{
  read_file, History, Env, Act, call, pure, attempt, match_result, match_option, ◌>>=◌, sys,
  checked, try,
}
use fos_next.Imaging.Lines.{
  Plain, joined, joined-All, joined-ends, split-joined, Inline, spaces, trim_left-spaces, Stale,
  last_line-printed,
}
use fos_next.Imaging.Status.{
  ProgressFunc, status_file, is_number_byte, from_number, span_number, unit_bits, speed_of, or_zero,
  parse_speed_bpm, use_fields, read_status,
}

-- partclone's units, and the bits per minute in one
pub data PartcloneUnit : Bytes → ℕ → Type 0 where
  kilo : PartcloneUnit (codes "KB/min") (8 * 10 ^ 3)
  mega : PartcloneUnit (codes "MB/min") (8 * 10 ^ 6)
  giga : PartcloneUnit (codes "GB/min") (8 * 10 ^ 9)
  tera : PartcloneUnit (codes "TB/min") (8 * 10 ^ 12)

PartcloneUnit-unit_bits :
    (unit : Bytes) (k : ℕ) → PartcloneUnit unit k → unit_bits (to_upper (trim_space unit)) ≡ k
unfolding unit_bits to_upper upper trim_space trim_left trim_right is_space equal
PartcloneUnit-unit_bits _ _ kilo = refl
PartcloneUnit-unit_bits _ _ mega = refl
PartcloneUnit-unit_bits _ _ giga = refl
PartcloneUnit-unit_bits _ _ tera = refl

-- A number in front of a unit is told apart from it.
span_number-unit :
    (n unit : Bytes) (k : ℕ)
    → All (λ c. is_number_byte c ≡ true) n
    → PartcloneUnit unit k
    → span_number (n ++ unit) ≡ (n, unit)
unfolding span_number is_number_byte is_digit
span_number-unit [] _ _ a kilo = refl
span_number-unit [] _ _ a mega = refl
span_number-unit [] _ _ a giga = refl
span_number-unit [] _ _ a tera = refl
span_number-unit (c ∷ n) unit k (y, a) u = rw (y, span_number-unit n unit k a u) refl

parse_speed_bpm-printed :
    (env : Env) (c : ℕ) (n unit : Bytes) (k : ℕ) (bpm : ℤ)
    → All (λ d. is_number_byte d ≡ true) (c ∷ n)
    → PartcloneUnit unit k
    → env.scaled (c ∷ n) k ≡ some bpm
    → parse_speed_bpm env (c ∷ n ++ unit) ≡ bpm
unfolding parse_speed_bpm from_number speed_of or_zero
parse_speed_bpm-printed env c n unit k bpm (y, a) u e =
    let start : from_number (c ∷ n ++ unit) ≡ c ∷ n ++ unit = rw y refl in
    let parts = span_number-unit (c ∷ n) unit k (y, a) u in
    ap (speed_of env) start ∙ rw (parts, PartcloneUnit-unit_bits unit k u, e) refl

number_solid : (c : ℕ) → is_number_byte c ≡ true → is_space c ≡ false
unfolding is_number_byte is_digit is_space
number_solid c e = ground arith

number-Solid : (n : Bytes) → All (λ c. is_number_byte c ≡ true) n → Solid n
number-Solid [] a = tt
number-Solid (c ∷ n) (y, a) = (number_solid c y, number-Solid n a)

unit-Solid : (unit : Bytes) (k : ℕ) → PartcloneUnit unit k → Solid unit
unfolding solid is_space
unit-Solid _ _ kilo = solid-Solid (codes "KB/min") refl
unit-Solid _ _ mega = solid-Solid (codes "MB/min") refl
unit-Solid _ _ giga = solid-Solid (codes "GB/min") refl
unit-Solid _ _ tera = solid-Solid (codes "TB/min") refl

-- A line of the status file: the speed as a number, its first byte apart, and a unit; and six fields,
-- the last as its first byte and the others. Spaces pad the speed and the percentage.
pub record StatusLine : Type 0 where
  pub pad : ℕ
  pub first : ℕ
  pub number : Bytes
  pub unit : Bytes
  pub elapsed : Bytes
  pub remaining : Bytes
  pub current : Bytes
  pub size : Bytes
  pub percent_pad : ℕ
  pub percent : Bytes
  pub total_first : ℕ
  pub total : Bytes

abbrev pub front_fields : StatusLine → List Bytes
front_fields l =
    (l.first ∷ l.number ++ l.unit)
    ∷ l.elapsed
    ∷ l.remaining
    ∷ l.current
    ∷ l.size
    ∷ (spaces l.percent_pad ++ l.percent)
    ∷ []

abbrev pub line_fields : StatusLine → List Bytes
line_fields l = front_fields l ++ (l.total_first ∷ l.total) ∷ []

module _ (env : Env) (fn : ProgressFunc) where
  use_fields-printed :
      (l : StatusLine) (k : ℕ) (pct bpm : ℤ)
      → Solid l.percent
      → All (λ c. is_number_byte c ≡ true) (l.first ∷ l.number)
      → PartcloneUnit l.unit k
      → env.scaled (l.first ∷ l.number) k ≡ some bpm
      → env.scaled l.percent 1 ≡ some pct
      → use_fields env fn (line_fields l) ≡ fn pct bpm
  unfolding use_fields match_option trim_space
  use_fields-printed l k pct bpm percent digits u eb ep =
      let speed =
        All-append (λ c. is_space c ≡ false) (l.first ∷ l.number) l.unit
          (number-Solid (l.first ∷ l.number) digits) (unit-Solid l.unit k u) in
      let trimmed : trim_space (spaces l.percent_pad ++ l.percent) ≡ l.percent =
        ap trim_right (trim_left-spaces l.percent_pad l.percent)
        ∙ trim_space-Solid l.percent percent in
      let trimmed_speed = trim_space-Solid (l.first ∷ l.number ++ l.unit) speed in
      let found = parse_speed_bpm-printed env l.first l.number l.unit k bpm digits u eb in
      rw (trimmed, ep, trimmed_speed, found) refl

  -- Where the last line of the status file is one that the patched partclone prints, `readStatus` reads
  -- the file and calls the function it is given with the percentage and the bits per minute of that
  -- line, whatever lines stand in front. Such a line has seven fields without `@` and newlines, and
  -- ends with a newline: the speed first, perhaps behind spaces, with a unit of partclone; the
  -- percentage sixth, perhaps behind spaces; and the total last. Only the percentage and the total may
  -- not have spaces inside.
  pub read_status-printed :
      (h : History) (front : Bytes) (l : StatusLine) (k : ℕ) (pct bpm : ℤ)
      → Stale front
      → All Plain (line_fields l)
      → All Inline (line_fields l)
      → Solid l.percent
      → Solid (l.total_first ∷ l.total)
      → All (λ c. is_number_byte c ≡ true) (l.first ∷ l.number)
      → PartcloneUnit l.unit k
      → env.scaled (l.first ∷ l.number) k ≡ some bpm
      → env.scaled l.percent 1 ≡ some pct
      → env.answer h (read_file status_file) ≡ record {
        out = front ++ (spaces l.pad ++ (joined (line_fields l) ++ b'\n' ∷ []));
        fault = none;
      }
      → read_status env fn h ≡ fn pct bpm (call (read_file status_file) ∷ h)
  unfolding read_status ◌>>=◌ attempt try sys checked match_option match_result pure
  read_status-printed h front l k pct bpm st plain inline solid total digits u eb ep e =
      let (p, ends) = joined-ends (front_fields l) (l.total_first ∷ l.total) in
      let found =
        last_line-printed l.pad l.first _ p l.total_first l.total (number_solid l.first digits.0)
          total ends (joined-All (λ c. (c == b'\n') ≡ false) (line_fields l) refl inline) front
          st in
      let parts = split-joined _ _ plain in
      let used = use_fields-printed l k pct bpm solid digits u eb ep in
      rw e (
        ap (λ t. use_fields env fn (split t b'@') (call (read_file status_file) ∷ h)) found
        ∙ ap (λ fs. use_fields env fn fs (call (read_file status_file) ∷ h)) parts
        ∙ ap (λ (m : Act (Unit {0})). m (call (read_file status_file) ∷ h)) used)
