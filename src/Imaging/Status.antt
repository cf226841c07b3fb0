-- ===== src/Imaging/Status.antt =====
-- `pollStatus`, `readStatus` and `parseSpeedBpm` of agent/internal/imaging/imaging.go.
use fos_next.Prelude.{
  ℕ, zero, suc, ◌*◌, ◌^◌, ℤ, pos, Bool, ◌||◌, List, [], ◌∷◌, Option, none, some, Bytes, codes, ◌==◌,
  if◌then◌else◌,
}
use fos_next.Strings.{equal, to_upper, trim_space, split, is_digit, after_last}
use fos_next.World.{
  read_file, Env, Act, pure, attempt, match_result, match_option, ◌>>=◌, ◌>>◌, try,
}

-- `ProgressFunc`, called with percent and bits per minute
abbrev pub ProgressFunc : Type 0
ProgressFunc = ℤ → ℤ → Act (Unit {0})

abbrev pub status_file : Bytes
status_file = codes "/tmp/status.fog"

-- a digit or a dot
unfoldable pub is_number_byte : ℕ → Bool
unfolding is_digit
is_number_byte c = c == b'.' || is_digit c

-- the text from the first digit or dot on, as `strings.IndexAny` finds it
unfoldable pub from_number : Bytes → Bytes
from_number [] = []
from_number (c ∷ s) = if is_number_byte c then c ∷ s else from_number s

-- the digits and dots in front, and the rest
unfoldable pub span_number : Bytes → Bytes × Bytes
span_number [] = ([], [])
span_number (c ∷ s) =
    let (n, r) = span_number s in if is_number_byte c then (c ∷ n, r) else ([], c ∷ s)

-- bits per minute for one of the unit
unfoldable pub unit_bits : Bytes → ℕ
unit_bits unit =
    if equal unit (codes "KB/MIN")
    then 8 * 10 ^ 3
    else if equal unit (codes "MB/MIN")
    then 8 * 10 ^ 6
    else if equal unit (codes "GB/MIN")
    then 8 * 10 ^ 9
    else if equal unit (codes "TB/MIN")
    then 8 * 10 ^ 12
    else 1

-- A text that does not parse counts as 0.
unfoldable pub or_zero : Option ℤ → ℤ
or_zero none = pos 0
or_zero (some v) = v

-- the speed of a text that starts with its number
unfoldable pub speed_of : Env → Bytes → ℤ
unfolding span_number unit_bits or_zero
speed_of env [] = pos 0
speed_of env (c ∷ s) =
    let (n, unit) = span_number (c ∷ s) in
    or_zero (env.scaled n (unit_bits (to_upper (trim_space unit))))

-- `parseSpeedBpm`
unfoldable pub parse_speed_bpm : Env → Bytes → ℤ
unfolding speed_of
parse_speed_bpm env s = speed_of env (from_number s)

-- a text, or what stands behind its last newline
unfoldable pub behind_newline : Bytes → Option Bytes → Bytes
behind_newline line none = line
behind_newline line (some r) = trim_space r

-- the last line of the status file, trimmed
unfoldable pub last_line : Bytes → Bytes
unfolding behind_newline
last_line text = let line = trim_space text in behind_newline line (after_last b'\n' line)

-- the call of `fn` for the fields of a status line, if there are seven and the sixth is a number
unfoldable pub use_fields : Env → ProgressFunc → List Bytes → Act (Unit {0})
use_fields env fn (speed ∷ _ ∷ _ ∷ _ ∷ _ ∷ percent ∷ _ ∷ _) =
    match_option (env.scaled (trim_space percent) 1)
      (λ pct. fn pct (parse_speed_bpm env (trim_space speed))) (pure tt)
use_fields env fn _ = pure tt

-- An empty line splits into one field, so the test of the line for "" is part of that for seven.
unfoldable pub read_status : Env → ProgressFunc → Act (Unit {0})
read_status env fn = do
  data_or_error ← attempt (try env (read_file status_file))
  match_result data_or_error (λ text. use_fields env fn (split (last_line text) b'@'))
      (λ _. pure tt)

-- The ticks of `pollStatus` while its subprocess runs. The read behind the end follows the wait.
unfoldable pub poll_rounds : Env → ℕ → ProgressFunc → Act (Unit {0})
poll_rounds env zero fn = pure tt
poll_rounds env (suc rounds) fn = read_status env fn >> poll_rounds env rounds fn
