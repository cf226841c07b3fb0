-- ===== src/Imaging/Lines.antt =====
-- How `readStatus` of agent/internal/imaging/imaging.go finds the last line of a text, and its fields.
use fos_next.Prelude.{
  ℕ, zero, suc, sym, false, List, [], ◌∷◌, ◌++◌, Option, none, some, Bytes, ◌==◌, ◌≡◌, refl, ap,
  ◌∙◌, ◌⊎◌, inl, inr, Bool-cases, All, All-append, append_assoc, append-nil,
}
use fos_next.Strings.{is_space, trim_left, trim_right, trim_space, split, split_on, after_last}
use fos_next.Strings.Solid.{Solid, trim_right-append}
use fos_next.Imaging.Status.{behind_newline, last_line}

-- a text without `@`
abbrev pub Plain : Bytes → Type 0
Plain s = All (λ c. (c == b'@') ≡ false) s

-- fields with an `@` between each two
abbrev pub joined : List Bytes → Bytes
joined [] = []
joined (f ∷ []) = f
joined (f ∷ g ∷ fs) = f ++ b'@' ∷ joined (g ∷ fs)

pub joined-All : (P : ℕ → Type 0) (fs : List Bytes) → P b'@' → All (All P) fs → All P (joined fs)
joined-All P [] at_sign a = tt
joined-All P (f ∷ []) at_sign (s, a) = s
joined-All P (f ∷ g ∷ fs) at_sign (s, a) =
    All-append P f (b'@' ∷ joined (g ∷ fs)) s (at_sign, joined-All P (g ∷ fs) at_sign a)

-- Joined fields end with the last of them.
pub joined-ends :
    (fs : List Bytes) (last : Bytes) → (p : Bytes) × (joined (fs ++ last ∷ []) ≡ p ++ last)
joined-ends [] last = ([], refl)
joined-ends (f ∷ []) last = (f ++ b'@' ∷ [], sym (append_assoc f (b'@' ∷ []) last))
joined-ends (f ∷ g ∷ fs) last =
    let (p, e) = joined-ends (g ∷ fs) last in
    (f ++ b'@' ∷ p, ap (λ x. f ++ b'@' ∷ x) e ∙ sym (append_assoc f (b'@' ∷ p) last))

split_on-field :
    (cur f s : Bytes)
    → Plain f
    → split_on b'@' cur (f ++ b'@' ∷ s) ≡ (cur ++ f) ∷ split_on b'@' [] s
unfolding split_on
split_on-field cur [] s a = rw append-nil refl
split_on-field cur (c ∷ f) s (n, a) = rw n (
    split_on-field (cur ++ c ∷ []) f s a
    ∙ ap (λ v. v ∷ split_on b'@' [] s) (append_assoc cur (c ∷ []) f))

split_on-last : (cur f : Bytes) → Plain f → split_on b'@' cur f ≡ (cur ++ f) ∷ []
unfolding split_on
split_on-last cur [] a = rw append-nil refl
split_on-last cur (c ∷ f) (n, a) =
    rw n (split_on-last (cur ++ c ∷ []) f a ∙ ap (λ v. v ∷ []) (append_assoc cur (c ∷ []) f))

pub split-joined :
    (f : Bytes) (fs : List Bytes) → All Plain (f ∷ fs) → split (joined (f ∷ fs)) b'@' ≡ f ∷ fs
unfolding split
split-joined f [] (p, a) = split_on-last [] f p
split-joined f (g ∷ fs) (p, a) =
    split_on-field [] f (joined (g ∷ fs)) p ∙ ap (λ l. f ∷ l) (split-joined g fs a)

-- a text within one line
abbrev pub Inline : Bytes → Type 0
Inline s = All (λ c. (c == b'\n') ≡ false) s

abbrev pub spaces : ℕ → Bytes
spaces zero = []
spaces (suc n) = b' ' ∷ spaces n

spaces-Inline : (n : ℕ) (s : Bytes) → Inline s → Inline (spaces n ++ s)
spaces-Inline zero s a = a
spaces-Inline (suc n) s a = (refl, spaces-Inline n s a)

pub trim_left-spaces : (n : ℕ) (s : Bytes) → trim_left (spaces n ++ s) ≡ trim_left s
unfolding trim_left is_space
trim_left-spaces zero s = refl
trim_left-spaces (suc n) s = trim_left-spaces n s

trim_right-newline : (s : Bytes) → trim_right (s ++ b'\n' ∷ []) ≡ trim_right s
unfolding trim_right is_space
trim_right-newline [] = refl
trim_right-newline (c ∷ s) = rw (trim_right-newline s) refl

after_last-Inline : (s : Bytes) → Inline s → after_last b'\n' s ≡ none
unfolding after_last
after_last-Inline [] a = refl
after_last-Inline (c ∷ s) (n, a) = rw (after_last-Inline s a, n) refl

after_last-line : (s line : Bytes) → Inline line → after_last b'\n' (s ++ b'\n' ∷ line) ≡ some line
unfolding after_last
after_last-line [] line a = rw (after_last-Inline line a) refl
after_last-line (c ∷ s) line a = rw (after_last-line s line a) refl

trim_left-stale :
    (stale line : Bytes)
    → (trim_left (stale ++ b'\n' ∷ line) ≡ trim_left line)
      ⊎ ((s : Bytes) × (trim_left (stale ++ b'\n' ∷ line) ≡ s ++ b'\n' ∷ line))
unfolding trim_left is_space
trim_left-stale [] line = inl refl
trim_left-stale (c ∷ stale) line = elim (Bool-cases (is_space c)) [
  | inl y ↦ rw y (trim_left-stale stale line)
  | inr n ↦ inr (c ∷ stale, rw n refl)
]

last_line-trimmed :
    (text line : Bytes) (o : Option Bytes)
    → trim_space text ≡ line
    → after_last b'\n' line ≡ o
    → last_line text ≡ behind_newline line o
unfolding last_line
last_line-trimmed text line o e q = rw (e, q) refl

-- what stands in front of the last line: nothing, or a text that ends with a newline
pub data Stale : Bytes → Type 0 where
  fresh : Stale []
  behind : (s : Bytes) → Stale (s ++ b'\n' ∷ [])

-- A line that starts with a byte that is no space, and ends with the text `last`.
module _ (n c : ℕ) (line p : Bytes) (d : ℕ) (last : Bytes) (starts : is_space c ≡ false)
    (solid : Solid (d ∷ last)) (ends : c ∷ line ≡ p ++ d ∷ last) (inline : Inline (c ∷ line)) where
  trim_right-behind : (s : Bytes) → trim_right (s ++ c ∷ line) ≡ s ++ c ∷ line
  trim_right-behind s =
      ap (λ x. trim_right (s ++ x)) ends
      ∙ ap trim_right (sym (append_assoc s p (d ∷ last)))
      ∙ trim_right-append (s ++ p) d last solid
      ∙ append_assoc s p (d ∷ last)
      ∙ ap (λ x. s ++ x) (sym ends)

  trim_left-padded : (s : Bytes) → trim_left (spaces n ++ (c ∷ line ++ s)) ≡ c ∷ line ++ s
  unfolding trim_left
  trim_left-padded s = trim_left-spaces n (c ∷ line ++ s) ∙ rw starts refl

  trim_space-padded : trim_space (spaces n ++ c ∷ line) ≡ c ∷ line
  unfolding trim_space trim_left
  trim_space-padded = ap trim_right (trim_left-spaces n (c ∷ line) ∙ head) ∙ trim_right-behind []
    where
      head : trim_left (c ∷ line) ≡ c ∷ line
      head = rw starts refl

  -- the line with its spaces and its newline
  abbrev printed : Bytes
  printed = spaces n ++ (c ∷ line ++ b'\n' ∷ [])

  first_line : trim_right (trim_left printed) ≡ c ∷ line
  first_line =
      ap trim_right (trim_left-padded (b'\n' ∷ []))
      ∙ trim_right-newline (c ∷ line)
      ∙ trim_right-behind []

  later_line : (s : Bytes) → trim_right (s ++ b'\n' ∷ printed) ≡ s ++ b'\n' ∷ (spaces n ++ c ∷ line)
  later_line s =
      let front = s ++ b'\n' ∷ spaces n in
      let split_front : (t : Bytes) → front ++ t ≡ s ++ b'\n' ∷ (spaces n ++ t) =
        λ t. append_assoc s (b'\n' ∷ spaces n) t in
      ap trim_right (
        sym (split_front (c ∷ line ++ b'\n' ∷ []))
        ∙ sym (append_assoc front (c ∷ line) (b'\n' ∷ [])))
      ∙ trim_right-newline (front ++ c ∷ line)
      ∙ trim_right-behind front
      ∙ split_front (c ∷ line)

  pub last_line-printed : (front : Bytes) → Stale front → last_line (front ++ printed) ≡ c ∷ line
  unfolding trim_space behind_newline
  last_line-printed _ fresh =
      last_line-trimmed printed (c ∷ line) none first_line (after_last-Inline (c ∷ line) inline)
  last_line-printed _ (behind s) = rw append_assoc (elim (trim_left-stale s printed) [
    | inl q ↦
        last_line-trimmed _ (c ∷ line) none (ap trim_right q ∙ first_line)
          (after_last-Inline (c ∷ line) inline)
    | inr (t, q) ↦
        last_line-trimmed _ _ (some (spaces n ++ c ∷ line)) (ap trim_right q ∙ later_line t)
          (after_last-line t (spaces n ++ c ∷ line) (spaces-Inline n (c ∷ line) inline))
        ∙ trim_space-padded
  ])
