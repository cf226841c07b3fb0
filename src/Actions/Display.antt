-- ===== src/Actions/Display.antt =====
-- `ProgressDisplay` of agent/internal/actions/sys.go: the progress bar on the terminal. The formats of
-- floats and durations are parameters, the speed as text and the estimate for the time that is left.
pub mod Width
use fos_next.Prelude.{
  ℕ, zero, suc, ◌+◌, ◌-◌, ◌*◌, ◌/◌, ℤ, pos, negsuc, mul_int64, Bool, true, false, List, [], ◌∷◌,
  ◌++◌, Option, none, some, Bytes, codes, leb, ltb, ◌==◌, if◌then◌else◌,
}
use fos_next.Strconv.{itoa}

-- `ProgressDisplay`; the time of its start is in the elapsed time that a caller gives
pub record ProgressDisplay : Type 0 where
  pub part : ℕ
  pub total : ℕ
  pub label : Bytes
  pub last_pct : ℤ

pub record Formats : Type 0 where
  pub mib_per_minute : ℤ → Bytes  -- `%5.1f` of `float64(bpm) / (8 * 1024 * 1024)`
  pub eta : ℕ → ℤ → Bytes  -- for the elapsed time and a percentage from 1 to 99
  pub rounded : ℕ → Bytes  -- `elapsed.Round(time.Second)`

abbrev pub bar_width : ℕ
bar_width = 40

-- `█` and `░`
abbrev pub full_cell : Bytes
full_cell = 0xe2 ∷ 0x96 ∷ 0x88 ∷ []

abbrev pub light_cell : Bytes
light_cell = 0xe2 ∷ 0x96 ∷ 0x91 ∷ []

-- `strings.Repeat` with a count that is not negative
unfoldable pub repeat : Bytes → ℕ → Bytes
repeat s zero = []
repeat s (suc n) = s ++ repeat s n

-- `/` on int, which rounds to zero
unfoldable pub div_int : ℤ → ℕ → ℤ
div_int (pos n) k = pos (n / k)
div_int (negsuc n) k = if suc n / k == 0 then pos 0 else negsuc (suc n / k - 1)

-- `strings.Repeat` panics at a negative count: `none`
unfoldable pub bar_of : ℤ → Option Bytes
bar_of (pos filled) =
    if leb bar_width filled
    then some (repeat full_cell bar_width)
    else some (repeat full_cell filled ++ repeat light_cell (bar_width - filled))
bar_of (negsuc n) = none

-- the bar of a percentage
unfoldable pub bar : ℤ → Option Bytes
bar pct = bar_of (div_int (mul_int64 pct bar_width) 100)

-- the text of a percentage
unfoldable pub itoa_int : ℤ → Bytes
itoa_int (pos n) = itoa n
itoa_int (negsuc n) = b'-' ∷ itoa (suc n)

-- `%3d`
unfoldable pub pad_three : Bytes → Bytes
pad_three [] = codes "   "
pad_three (a ∷ []) = codes "  " ++ a ∷ []
pad_three (a ∷ b ∷ []) = codes " " ++ a ∷ b ∷ []
pad_three (a ∷ b ∷ c ∷ s) = a ∷ b ∷ c ∷ s

unfoldable pub eta_text : Formats → ℕ → ℤ → Bytes
eta_text f elapsed (negsuc n) = []
eta_text f elapsed (pos n) =
    if n == 0
    then []
    else if ltb n 100
    then f.eta elapsed (pos n)
    else codes "  done in " ++ f.rounded elapsed

-- `newProgressDisplay`: the display, and the header that it prints
unfoldable pub new_progress_display : ℕ → ℕ → Bytes → ProgressDisplay × Bytes
new_progress_display part total label = (
  record { part = part; total = total; label = label; last_pct = pos 0 },
  codes "\n  Partition "
      ++ itoa part
      ++ codes "/"
      ++ itoa total
      ++ codes "  ("
      ++ label
      ++ codes ")\n",
)

unfoldable pub line_of : Formats → ℕ → ℤ → ℤ → Bytes → Bytes
line_of f elapsed pct bpm b =
    codes "\r  ["
    ++ b
    ++ codes "] "
    ++ pad_three (itoa_int pct)
    ++ codes "%  "
    ++ f.mib_per_minute bpm
    ++ codes " MiB/min"
    ++ eta_text f elapsed pct
    ++ codes "  "

unfoldable pub drawn :
    Formats → ProgressDisplay → ℕ → ℤ → ℤ → Option Bytes → Option (ProgressDisplay × Bytes)
drawn f d elapsed pct bpm none = none
drawn f d elapsed pct bpm (some b) = some (record d { last_pct = pct }, line_of f elapsed pct bpm b)

-- `update`: the display and what it prints, `none` if it panics
unfoldable pub update : Formats → ProgressDisplay → ℕ → ℤ → ℤ → Option (ProgressDisplay × Bytes)
update f d elapsed pct bpm = drawn f d elapsed pct bpm (bar pct)

unfoldable pub below_hundred : ℤ → Bool
below_hundred (pos n) = ltb n 100
below_hundred (negsuc n) = true

unfoldable pub ended : Option (ProgressDisplay × Bytes) → Option (ProgressDisplay × Bytes)
ended none = none
ended (some (d, text)) = some (d, text ++ codes "\n")

-- `done`
unfoldable pub finish : Formats → ProgressDisplay → ℕ → Option (ProgressDisplay × Bytes)
finish f d elapsed =
    if below_hundred d.last_pct
    then ended (update f d elapsed (pos 100) (pos 0))
    else some (d, codes "\n")
