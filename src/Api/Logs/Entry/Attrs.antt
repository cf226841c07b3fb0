-- ===== src/Api/Logs/Entry/Attrs.antt =====
-- The attributes of the entry that `recordToEntry` of agent/internal/api/loghandler.go makes.
use fos_next.Prelude.{
  Bool, true, false, List, [], ◌∷◌, Option, none, some, Bytes, if◌then◌else◌, ◌≡◌, refl, sym, ◌∙◌,
  inl, inr, Bool-cases,
}
use fos_next.Strings.{equal}
use fos_next.Strings.Equal.{equal-eq, equal_refl}
use fos_next.Api.Logs.Entry.{SlogRecord, Formats, put_attr, put_attrs, record_to_entry}

-- the value of a key in a map
unfoldable pub lookup : Bytes → List (Bytes × Bytes) → Option Bytes
lookup key [] = none
lookup key ((k, v) ∷ m) = if equal k key then some v else lookup key m

-- the second value if there is one, else the first
unfoldable pub or_else : Option Bytes → Option Bytes → Option Bytes
or_else first none = first
or_else first (some v) = some v

-- the value that was given last
unfoldable pub last_value : Bytes → List (Bytes × Bytes) → Option Bytes
last_value key [] = none
last_value key ((k, v) ∷ attrs) =
    or_else (if equal k key then some v else none) (last_value key attrs)

-- Two keys that differ cannot both be the key that is looked for.
one_key : (j k key : Bytes) → equal j k ≡ false → equal k key ≡ true → equal j key ≡ false
one_key j k key n q = elim (Bool-cases (equal j key)) [
  | inl p ↦
      let same : j ≡ k = equal-eq j key p ∙ sym (equal-eq k key q) in
      absurd (cc (n, equal_refl k, same))
  | inr p ↦ p
]

lookup-put_attr :
    (key k v : Bytes) (m : List (Bytes × Bytes))
    → lookup key (put_attr k v m) ≡ (if equal k key then some v else lookup key m)
unfolding lookup put_attr
lookup-put_attr key k v [] = refl
lookup-put_attr key k v ((j, w) ∷ m) = elim (Bool-cases (equal j k)) [
  | inl y ↦
      rw (y, equal-eq j k y)
        (elim (Bool-cases (equal k key)) [ inl p ↦ rw p refl | inr p ↦ rw p refl ])
  | inr n ↦
      rw (n, lookup-put_attr key k v m)
        (elim (Bool-cases (equal k key)) [
          | inl q ↦ rw (q, one_key j k key n q) refl
          | inr q ↦ rw q refl
        ])
]

or_else_assoc : (a b c : Option Bytes) → or_else (or_else a b) c ≡ or_else a (or_else b c)
unfolding or_else
or_else_assoc a b none = refl
or_else_assoc a b (some v) = refl

or_else_if :
    (b : Bool) (v : Bytes) (o : Option Bytes)
    → (if b then some v else o) ≡ or_else o (if b then some v else none)
unfolding or_else
or_else_if true v o = refl
or_else_if false v o = refl

lookup-put_attrs :
    (key : Bytes) (attrs m : List (Bytes × Bytes))
    → lookup key (put_attrs attrs m) ≡ or_else (lookup key m) (last_value key attrs)
unfolding put_attrs last_value
lookup-put_attrs key [] m = unfold or_else in refl
lookup-put_attrs key ((k, v) ∷ attrs) m =
    lookup-put_attrs key attrs (put_attr k v m)
    ∙ rw (lookup-put_attr key k v m, or_else_if (equal k key) v (lookup key m))
        (or_else_assoc _ _ _)

none_or_else : (o : Option Bytes) → or_else none o ≡ o
unfolding or_else
none_or_else none = refl
none_or_else (some v) = refl

-- The entry of a record holds, for each key, the value that the record gives it last, and no value if
-- the record has none.
pub lookup-record_to_entry :
    (f : Formats) (r : SlogRecord) (key : Bytes)
    → lookup key (record_to_entry f r).attrs ≡ last_value key r.attrs
unfolding record_to_entry
lookup-record_to_entry f r key =
    lookup-put_attrs key r.attrs [] ∙ unfold lookup in none_or_else (last_value key r.attrs)
