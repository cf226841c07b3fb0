-- ===== src/Strconv.antt =====
-- The parts of Go's `strconv` and `path/filepath` that the agent uses.
pub mod RoundTrip
use fos_next.Prelude.{
  ℕ, zero, suc, ◌+◌, ◌-◌, ◌*◌, ◌/◌, ◌%◌, ◌^◌, ℤ, pos, negsuc, Bool, true, false, [], ◌∷◌, ◌++◌,
  none, some, Bytes, codes, ltb, ◌==◌, if◌then◌else◌,
}
use fos_next.Strings.{is_digit, after_last}

unfoldable pub digits : ℕ → ℕ → Bytes
digits zero n = []
digits (suc f) n =
    let rest = digits f (n / 10) in
    if ltb n 10 then (b'0' + n) ∷ [] else rest ++ (b'0' + n % 10) ∷ []

-- `strconv.Itoa` of a number that is not negative; the fuel is one more than the number, and each
-- digit takes one unit
unfoldable pub itoa : ℕ → Bytes
unfolding digits
itoa n = digits (suc n) n

pub data Scan : Type 0 where
  done : ℕ → Scan
  syntax : Scan
  range : Scan

-- the loop of `strconv.ParseUint` in base 10, at 64 bits
unfoldable pub scan_uint : Bytes → ℕ → Scan
unfolding is_digit
scan_uint [] n = done n
scan_uint (c ∷ s) n =
    let rest = scan_uint s (n * 10 + (c - b'0')) in
    if is_digit c then (if ltb (2 ^ 64 - 1) (n * 10 + (c - b'0')) then range else rest) else syntax

-- The value and whether there is an error: a value out of range is cut to the nearest int64.
unfoldable pub signed : Bool → Scan → ℤ × Bool
signed neg syntax = (pos 0, false)
signed false range = (pos (2 ^ 63 - 1), false)
signed true range = (negsuc (2 ^ 63 - 1), false)
signed false (done n) = if ltb n (2 ^ 63) then (pos n, true) else (pos (2 ^ 63 - 1), false)
signed true (done zero) = (pos 0, true)
signed true (done (suc n)) =
    if ltb n (2 ^ 63) then (negsuc n, true) else (negsuc (2 ^ 63 - 1), false)

unfoldable pub unsigned : Bytes → Scan
unfolding scan_uint
unsigned [] = syntax
unsigned (c ∷ s) = scan_uint (c ∷ s) 0

-- `strconv.ParseInt(s, 10, 64)`: the value, and whether `err == nil`
unfoldable pub parse_int : Bytes → ℤ × Bool
unfolding signed unsigned
parse_int [] = (pos 0, false)
parse_int (c ∷ s) =
    if c == b'-'
    then signed true (unsigned s)
    else if c == b'+'
    then signed false (unsigned s)
    else signed false (unsigned (c ∷ s))

-- the text without the slashes at its end
unfoldable pub strip_slashes : Bytes → Bytes
strip_slashes [] = []
strip_slashes (c ∷ s) = elim (strip_slashes s) [
  | [] ↦ if c == b'/' then [] else c ∷ []
  | d ∷ r ↦ c ∷ d ∷ r
]

unfoldable pub last_element : Bytes → Bytes
unfolding after_last
last_element [] = codes "/"
last_element (c ∷ s) = elim (after_last b'/' (c ∷ s)) [ some r ↦ r | none ↦ c ∷ s ]

-- `filepath.Base`
unfoldable pub base : Bytes → Bytes
unfolding strip_slashes last_element
base [] = codes "."
base (c ∷ s) = last_element (strip_slashes (c ∷ s))
