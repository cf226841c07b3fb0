-- ===== src/Strings.antt =====
-- The parts of Go's `strings` that the agent uses, over bytes. White space and letter
-- case are those of ASCII.
pub mod Equal
pub mod Solid
use fos_next.Prelude.{
  ℕ, ◌+◌, ◌-◌, Bool, true, false, ◌&&◌, ◌||◌, List, [], ◌∷◌, ◌++◌, map, Option, none, some, Bytes,
  ltb, leb, ◌==◌, if◌then◌else◌,
}

unfoldable pub equal : Bytes → Bytes → Bool
equal [] [] = true
equal [] (y ∷ ys) = false
equal (x ∷ xs) [] = false
equal (x ∷ xs) (y ∷ ys) = x == y && equal xs ys

-- `unicode.IsSpace` on ASCII
unfoldable pub is_space : ℕ → Bool
is_space c = (leb 9 c && leb c 13) || c == 32

unfoldable pub trim_left : Bytes → Bytes
unfolding is_space
trim_left [] = []
trim_left (c ∷ s) = if is_space c then trim_left s else c ∷ s

unfoldable pub trim_right : Bytes → Bytes
unfolding is_space
trim_right [] = []
trim_right (c ∷ s) = elim (trim_right s) [
  | [] ↦ if is_space c then [] else c ∷ []
  | d ∷ r ↦ c ∷ d ∷ r
]

-- `strings.TrimSpace`
unfoldable pub trim_space : Bytes → Bytes
unfolding trim_left trim_right
trim_space s = trim_right (trim_left s)

-- a word that has begun is put in front of the words behind it
unfoldable pub push_word : Bytes → List Bytes → List Bytes
push_word [] ws = ws
push_word (c ∷ w) ws = (c ∷ w) ∷ ws

unfoldable pub words : Bytes → Bytes → List Bytes
unfolding push_word is_space
words cur [] = push_word cur []
words cur (c ∷ s) =
    let next = words [] s in
    let more = words (cur ++ c ∷ []) s in if is_space c then push_word cur next else more

-- `strings.Fields`
unfoldable pub fields : Bytes → List Bytes
unfolding words
fields s = words [] s

unfoldable pub split_on : ℕ → Bytes → Bytes → List Bytes
split_on sep cur [] = cur ∷ []
split_on sep cur (c ∷ s) =
    let next = split_on sep [] s in
    let more = split_on sep (cur ++ c ∷ []) s in if c == sep then cur ∷ next else more

-- `strings.Split` by a separator of one byte
unfoldable pub split : Bytes → ℕ → List Bytes
unfolding split_on
split s sep = split_on sep [] s

-- `strings.Cut` by a separator of one byte: what stands before it, behind it, and whether it was found
unfoldable pub cut : Bytes → ℕ → Bytes × Bytes × Bool
cut [] sep = ([], [], false)
cut (c ∷ s) sep =
    let (k, v, found) = cut s sep in if c == sep then ([], s, true) else (c ∷ k, v, found)

unfoldable pub lower : ℕ → ℕ
lower c = if leb b'A' c && leb c b'Z' then c + 32 else c

unfoldable pub upper : ℕ → ℕ
upper c = if leb b'a' c && leb c b'z' then c - 32 else c

-- `strings.ToLower`
unfoldable pub to_lower : Bytes → Bytes
unfolding lower
to_lower s = map lower s

-- `strings.ToUpper`
unfoldable pub to_upper : Bytes → Bytes
unfolding upper
to_upper s = map upper s

-- `strings.EqualFold`
unfoldable pub equal_fold : Bytes → Bytes → Bool
unfolding equal to_lower
equal_fold s t = equal (to_lower s) (to_lower t)

-- `strings.HasPrefix`
unfoldable pub has_prefix : Bytes → Bytes → Bool
has_prefix s [] = true
has_prefix [] (p ∷ ps) = false
has_prefix (c ∷ s) (p ∷ ps) = c == p && has_prefix s ps

-- the last byte of a text
unfoldable pub last : Bytes → Option ℕ
last [] = none
last (c ∷ []) = some c
last (c ∷ d ∷ s) = last (d ∷ s)

unfoldable pub is_digit : ℕ → Bool
is_digit c = leb b'0' c && leb c b'9'

-- `<` on texts, byte by byte
unfoldable pub bytes_less : Bytes → Bytes → Bool
bytes_less s [] = false
bytes_less [] (d ∷ t) = true
bytes_less (c ∷ s) (d ∷ t) = ltb c d || (c == d && bytes_less s t)

-- what stands behind the last `sep`; `none` if there is none
unfoldable pub after_last : ℕ → Bytes → Option Bytes
after_last sep [] = none
after_last sep (c ∷ s) = elim (after_last sep s) [
  | some r ↦ some r
  | none ↦ if c == sep then some s else none
]
