-- ===== src/Boot/Reorder.antt =====
-- `reorder` of agent/cmd/fos-agent/main.go.
pub mod Moved
use fos_next.Prelude.{List, [], ◌∷◌, Option, none, some, Bytes, if◌then◌else◌}
use fos_next.Strings.{equal}

unfoldable pub behind : Bytes → Option (List Bytes) → Option (List Bytes)
behind m none = none
behind m (some r) = some (m ∷ r)

-- the list with `x` in place of the first element equal to `primary`, if there is one
unfoldable pub put_at : Bytes → Bytes → List Bytes → Option (List Bytes)
put_at primary x [] = none
put_at primary x (m ∷ ms) =
    let rest = behind m (put_at primary x ms) in if equal m primary then some (x ∷ ms) else rest

unfoldable pub swapped : Bytes → Bytes → List Bytes → Option (List Bytes) → List Bytes
swapped primary x xs none = x ∷ xs
swapped primary x xs (some r) = primary ∷ r

-- `reorder`: the element at 0 changes places with the first later one that equals `primary`
unfoldable pub reorder : List Bytes → Bytes → List Bytes
reorder [] primary = []
reorder (x ∷ xs) primary = swapped primary x xs (put_at primary x xs)
