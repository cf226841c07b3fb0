-- ===== src/Base64.antt =====
-- `base64.StdEncoding`, as agent/internal/partition/partition.go uses it for table backups. The
-- decoder's error leaves out the position.
pub mod RoundTrip
use fos_next.Prelude.{
  ℕ, suc, ◌+◌, ◌-◌, ◌*◌, ◌/◌, ◌%◌, Bool, true, false, ◌&&◌, ◌||◌, List, [], ◌∷◌, Option, none, some,
  Bytes, ltb, leb, ◌==◌, if◌then◌else◌,
}

-- the letter for six bits
unfoldable pub letter : ℕ → ℕ
letter v =
    if ltb v 26
    then b'A' + v
    else if ltb v 52
    then b'a' + (v - 26)
    else if ltb v 62
    then b'0' + (v - 52)
    else if v == 62
    then b'+'
    else b'/'

-- `EncodeToString`
unfoldable pub encode : Bytes → Bytes
encode [] = []
encode (a ∷ []) = letter (a / 4) ∷ letter (a % 4 * 16) ∷ b'=' ∷ b'=' ∷ []
encode (a ∷ b ∷ []) =
    letter (a / 4) ∷ letter (a % 4 * 16 + b / 16) ∷ letter (b % 16 * 4) ∷ b'=' ∷ []
encode (a ∷ b ∷ c ∷ rest) =
    letter (a / 4)
    ∷ letter (a % 4 * 16 + b / 16)
    ∷ letter (b % 16 * 4 + c / 64)
    ∷ letter (c % 64)
    ∷ encode rest

-- the six bits of a letter
unfoldable pub unletter : ℕ → Option ℕ
unletter c =
    if leb b'A' c && leb c b'Z'
    then some (c - b'A')
    else if leb b'a' c && leb c b'z'
    then some (c - b'a' + 26)
    else if leb b'0' c && leb c b'9'
    then some (c - b'0' + 52)
    else if c == b'+'
    then some 62
    else if c == b'/'
    then some 63
    else none

-- line ends are skipped wherever they stand
unfoldable pub drop_line_ends : Bytes → Bytes
drop_line_ends [] = []
drop_line_ends (c ∷ s) =
    let rest = drop_line_ends s in if c == b'\r' || c == b'\n' then rest else c ∷ rest

-- the three bytes of four letters
unfoldable pub triple : Option ℕ → Option ℕ → Option ℕ → Option ℕ → Option Bytes → Option Bytes
triple (some u) (some v) (some w) (some x) (some rest) =
    some ((u * 4 + v / 16) ∷ (v % 16 * 16 + w / 4) ∷ (w % 4 * 64 + x) ∷ rest)
triple _ _ _ _ _ = none

-- the last one or two bytes, in front of the padding
unfoldable pub single : Option ℕ → Option ℕ → Option Bytes
single (some u) (some v) = some ((u * 4 + v / 16) ∷ [])
single _ _ = none

unfoldable pub double : Option ℕ → Option ℕ → Option ℕ → Option Bytes
double (some u) (some v) (some w) = some ((u * 4 + v / 16) ∷ (v % 16 * 16 + w / 4) ∷ [])
double _ _ _ = none

unfoldable pub is_nil : Bytes → Bool
is_nil [] = true
is_nil (c ∷ s) = false

unfoldable pub decode_groups : Bytes → Option Bytes
decode_groups [] = some []
decode_groups (p ∷ q ∷ r ∷ s ∷ rest) =
    let more = decode_groups rest in
    if is_nil rest && (s == b'=')
    then (if r == b'='
        then single (unletter p) (unletter q)
        else double (unletter p) (unletter q) (unletter r))
    else triple (unletter p) (unletter q) (unletter r) (unletter s) more
decode_groups _ = none

-- `DecodeString`
unfoldable pub decode : Bytes → Option Bytes
decode s = decode_groups (drop_line_ends s)
