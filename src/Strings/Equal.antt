-- ===== src/Strings/Equal.antt =====
-- The comparison of texts decides their equality.
use fos_next.Prelude.{true, [], ◌∷◌, Bytes, ◌≡◌, refl, arith}
use fos_next.Strings.{equal}

pub equal-eq : (a b : Bytes) → equal a b ≡ true → a ≡ b
unfolding equal
equal-eq [] [] e = refl
equal-eq [] (y ∷ ys) e = absurd (cc e)
equal-eq (x ∷ xs) [] e = absurd (cc e)
equal-eq (x ∷ xs) (y ∷ ys) e = ground (arith, equal-eq xs ys)

pub equal_refl : (a : Bytes) → equal a a ≡ true
unfolding equal
equal_refl [] = refl
equal_refl (x ∷ xs) = ground (arith, equal_refl xs)
