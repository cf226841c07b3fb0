-- ===== src/Strings/Solid.antt =====
-- Texts without white space, and what trimming leaves of them.
use fos_next.Prelude.{
  ℕ, Bool, true, false, not, ◌&&◌, [], ◌∷◌, ◌++◌, Bytes, ◌≡◌, refl, ap, ◌∙◌, inl, inr, Bool-cases,
  All,
}
use fos_next.Strings.{is_space, trim_left, trim_right, trim_space}

-- a text without white space
abbrev pub Solid : Bytes → Type 0
Solid w = All (λ c. is_space c ≡ false) w

-- the test of a concrete text
unfoldable pub solid : Bytes → Bool
solid [] = true
solid (c ∷ s) = not (is_space c) && solid s

pub solid-Solid : (k : Bytes) → solid k ≡ true → Solid k
unfolding solid
solid-Solid [] e = tt
solid-Solid (c ∷ k) e = elim (Bool-cases (is_space c)) [
  | inl y ↦ absurd (cc (rw y at e))
  | inr n ↦ (n, solid-Solid k (rw n at e))
]

pub trim_right-Solid : (s : Bytes) → Solid s → trim_right s ≡ s
unfolding trim_right
trim_right-Solid [] a = refl
trim_right-Solid (c ∷ []) (n, a) = rw n refl
trim_right-Solid (c ∷ d ∷ s) (n, a) = rw (trim_right-Solid (d ∷ s) a) refl

-- A text that ends with something solid keeps its end.
pub trim_right-append :
    (s : Bytes) (d : ℕ) (t : Bytes) → Solid (d ∷ t) → trim_right (s ++ d ∷ t) ≡ s ++ d ∷ t
unfolding trim_right
trim_right-append [] d t a = trim_right-Solid (d ∷ t) a
trim_right-append (c ∷ []) d t a = rw (trim_right-Solid (d ∷ t) a) refl
trim_right-append (c ∷ x ∷ s) d t a = rw (trim_right-append (x ∷ s) d t a) refl

pub trim_left-Solid : (s : Bytes) → Solid s → trim_left s ≡ s
unfolding trim_left
trim_left-Solid [] a = refl
trim_left-Solid (c ∷ s) (n, a) = rw n refl

pub trim_space-Solid : (s : Bytes) → Solid s → trim_space s ≡ s
unfolding trim_space
trim_space-Solid s a = ap trim_right (trim_left-Solid s a) ∙ trim_right-Solid s a
