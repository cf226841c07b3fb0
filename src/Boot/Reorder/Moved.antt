-- ===== src/Boot/Reorder/Moved.antt =====
-- What `reorder` of agent/cmd/fos-agent/main.go does to a list.
use mathlib.Core.List.{Perm}
use mathlib.Core.List.Perm
use fos_next.Prelude.{
  In, here, there, List, [], ◌∷◌, Option, none, some, Bytes, ◌≡◌, refl, inl, inr, Bool-cases,
}
use fos_next.Strings.{equal}
use fos_next.Strings.Equal.{equal-eq, equal_refl}
use fos_next.Boot.Reorder.{behind, put_at, swapped, reorder}

behind-eq-some :
    (m : Bytes) (o : Option (List Bytes)) (r : List Bytes)
    → behind m o ≡ some r
    → (r' : List Bytes) × (o ≡ some r') × (r ≡ m ∷ r')
unfolding behind
behind-eq-some m none r e = absurd (cc e)
behind-eq-some m (some r') r e = (r', refl, cc)

some-injective : {a b : List Bytes} → some a ≡ some b → a ≡ b
some-injective e = cc

put_at-Perm :
    (primary x : Bytes) (xs r : List Bytes)
    → put_at primary x xs ≡ some r
    → Perm (x ∷ xs) (primary ∷ r)
unfolding put_at
put_at-Perm primary x [] r e = absurd (cc e)
put_at-Perm primary x (m ∷ ms) r e = elim (Bool-cases (equal m primary)) [
  | inl y ↦
      let here : x ∷ ms ≡ r = some-injective (rw y at e) in
      rw (← here, ← equal-eq m primary y) (Perm.swap m x ms)
  | inr n ↦
      let (r', q, w) = behind-eq-some m (put_at primary x ms) r (rw n at e) in
      rw w (
        Perm.trans (Perm.swap m x ms)
          (Perm.trans (Perm.cons m (put_at-Perm primary x ms r' q)) (Perm.swap primary m r')))
]

swapped-Perm :
    (primary x : Bytes) (xs : List Bytes) (o : Option (List Bytes))
    → put_at primary x xs ≡ o
    → Perm (x ∷ xs) (swapped primary x xs o)
unfolding swapped
swapped-Perm primary x xs none e = Perm.refl (x ∷ xs)
swapped-Perm primary x xs (some r) e = put_at-Perm primary x xs r e

-- `reorder` only changes the order of the addresses.
pub reorder-Perm : (macs : List Bytes) (primary : Bytes) → Perm macs (reorder macs primary)
unfolding reorder
reorder-Perm [] primary = Perm.refl []
reorder-Perm (x ∷ xs) primary = swapped-Perm primary x xs _ refl

-- the list begins with `x`
pub data StartsWith (x : Bytes) : List Bytes → Type 0 where
  in_front : (rest : List Bytes) → StartsWith x (x ∷ rest)

put_at-In :
    (primary x : Bytes) (xs : List Bytes)
    → In primary xs
    → (r : List Bytes) × (put_at primary x xs ≡ some r)
unfolding put_at behind
put_at-In primary x [] i = elim i [ ]
put_at-In _ x (m ∷ ms) here = (x ∷ ms, rw (equal_refl m) refl)
put_at-In primary x (m ∷ ms) (there i) =
    let (r, q) = put_at-In primary x ms i in
    elim (Bool-cases (equal m primary)) [
      | inl y ↦ (x ∷ ms, rw y refl)
      | inr n ↦ (m ∷ r, rw (n, q) refl)
    ]

swapped_first :
    (primary : Bytes) (xs : List Bytes) (o : Option (List Bytes))
    → StartsWith primary (swapped primary primary xs o)
unfolding swapped
swapped_first primary xs none = in_front xs
swapped_first primary xs (some r) = in_front r

-- An address of the list that is given as primary comes first, also if it occurs several times.
pub reorder-StartsWith :
    (macs : List Bytes) (primary : Bytes)
    → In primary macs
    → StartsWith primary (reorder macs primary)
unfolding reorder swapped
reorder-StartsWith [] primary i = elim i [ ]
reorder-StartsWith (x ∷ xs) _ here = swapped_first x xs (put_at x x xs)
reorder-StartsWith (x ∷ xs) primary (there i) =
    let (r, q) = put_at-In primary x xs i in rw q (in_front r)
