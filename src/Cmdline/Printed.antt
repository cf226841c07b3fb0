-- ===== src/Cmdline/Printed.antt =====
-- Kernel command lines that agent/internal/cmdline/cmdline.go reads back.
use fos_next.Prelude.{
  ℕ, Bool, true, false, List, [], ◌∷◌, ◌++◌, none, Bytes, codes, if◌then◌else◌, ok, ◌≡◌, refl, sym,
  ap, ◌∙◌, inl, inr, Bool-cases, All, All-append, append_assoc, append-nil,
}
use fos_next.Strings.{
  equal, fields, cut, is_space, trim_left, trim_right, trim_space, words, push_word, equal_fold,
  lower,
}
use fos_next.Strings.Solid.{Solid, solid, solid-Solid}
use fos_next.World.{read_file, Env, History, pure, match_option, ◌>>=◌, sys, checked, try}
use fos_next.Cmdline.{Params, no_params, is_on, assign, assign_all, parse_string, parse}

-- what stands in front of these words
abbrev pub separator : List Bytes → ℕ
separator [] = b'\n'
separator (w ∷ ws) = b' '

-- a line of words, a space between each two
abbrev pub spaced : List Bytes → Bytes
spaced [] = []
spaced (w ∷ ws) = w ++ separator ws ∷ spaced ws

abbrev pub flag : Bool → Bytes
flag true = codes "1"
flag false = codes "0"

-- the words that set all parameters
abbrev pub print : Params → List Bytes
print p =
    (codes "fog_server=" ++ p.fog_server)
    ∷ (codes "fog_action=" ++ p.fog_action)
    ∷ (codes "fog_host=" ++ p.fog_host)
    ∷ (codes "fog_debug=" ++ flag p.fog_debug)
    ∷ []

separator-is_space : (ws : List Bytes) → is_space (separator ws) ≡ true
unfolding is_space
separator-is_space [] = refl
separator-is_space (w ∷ ws) = refl

-- A word that ends at white space is one of the words.
words-Solid :
    (cur w : Bytes) (x : ℕ) (s : Bytes)
    → Solid w
    → is_space x ≡ true
    → words cur (w ++ x ∷ s) ≡ push_word (cur ++ w) (words [] s)
unfolding words
words-Solid cur [] x s a y = rw (append-nil, y) refl
words-Solid cur (c ∷ w) x s (n, a) y = rw n (
    words-Solid (cur ++ c ∷ []) w x s a y
    ∙ ap (λ v. push_word v (words [] s)) (append_assoc cur (c ∷ []) w))

assign_all-push_word :
    (w : Bytes) (ws : List Bytes) (p : Params)
    → assign_all (push_word w ws) p ≡ assign_all (w ∷ ws) p
unfolding push_word assign_all assign cut equal
assign_all-push_word [] ws p = refl
assign_all-push_word (c ∷ w) ws p = refl

assign_all-spaced :
    (ws : List Bytes) (p : Params)
    → All Solid ws
    → assign_all (words [] (spaced ws)) p ≡ assign_all ws p
unfolding assign_all
assign_all-spaced [] p a = unfold words push_word in refl
assign_all-spaced (w ∷ ws) p (n, a) =
    ap (λ l. assign_all l p) (words-Solid [] w (separator ws) (spaced ws) n (separator-is_space ws))
    ∙ assign_all-push_word w (words [] (spaced ws)) p
    ∙ assign_all-spaced ws _ a

parse_string-spaced :
    (ws : List Bytes) → All Solid ws → parse_string (spaced ws) ≡ assign_all ws no_params
unfolding parse_string fields
parse_string-spaced ws a = assign_all-spaced ws no_params a

assign_all-append :
    (us ws : List Bytes) (p : Params) → assign_all (us ++ ws) p ≡ assign_all ws (assign_all us p)
unfolding assign_all
assign_all-append [] ws p = refl
assign_all-append (u ∷ us) ws p = assign_all-append us ws _

is_on-flag : (b : Bool) → is_on (flag b) ≡ b
unfolding is_on equal equal_fold lower
is_on-flag true = refl
is_on-flag false = refl

assign_all-print : (p q : Params) → assign_all (print p) q ≡ p
unfolding assign_all assign cut equal is_on equal_fold
assign_all-print p q = ap (λ b. record p { fog_debug = b }) (is_on-flag p.fog_debug)

words-space :
    (cur : Bytes) (c : ℕ) (s : Bytes)
    → is_space c ≡ true
    → words cur (c ∷ s) ≡ push_word cur (words [] s)
unfolding words
words-space cur c s y = rw y refl

words-letter :
    (cur : Bytes) (c : ℕ) (s : Bytes)
    → is_space c ≡ false
    → words cur (c ∷ s) ≡ words (cur ++ c ∷ []) s
unfolding words
words-letter cur c s n = rw n refl

-- White space at either end makes no word.
words-trim_left : (s : Bytes) → words [] (trim_left s) ≡ words [] s
words-trim_left [] = unfold trim_left in refl
words-trim_left (c ∷ s) = elim (Bool-cases (is_space c)) [
  | inl y ↦
      let front : trim_left (c ∷ s) ≡ trim_left s = unfold trim_left in rw y refl in
      ap (words []) front
      ∙ words-trim_left s
      ∙ sym (words-space [] c s y ∙ unfold push_word in refl)
  | inr n ↦
      let front : trim_left (c ∷ s) ≡ c ∷ s = unfold trim_left in rw n refl in ap (words []) front
]

trim_right-cons :
    (c : ℕ) (s r : Bytes)
    → trim_right s ≡ r
    → trim_right (c ∷ s) ≡ (elim r [ [] ↦ if is_space c then [] else c ∷ [] | d ∷ t ↦ c ∷ d ∷ t ])
unfolding trim_right
trim_right-cons c s r e = rw e refl

words-kept :
    (c : ℕ) (s r : Bytes)
    → ((cur : Bytes) → words cur (trim_right s) ≡ words cur s)
    → trim_right s ≡ r
    → (cur : Bytes) → words cur (trim_right (c ∷ s)) ≡ words cur (c ∷ s)
words-kept c s [] ih e cur = elim (Bool-cases (is_space c)) [
  | inl y ↦
      let none_left : words [] s ≡ [] =
        sym (ih []) ∙ ap (words []) e ∙ unfold words push_word in refl in
      let whole : trim_right (c ∷ s) ≡ [] = trim_right-cons c s [] e ∙ rw y refl in
      ap (words cur) whole
      ∙ unfold words in ap (push_word cur) (sym none_left) ∙ sym (words-space cur c s y)
  | inr n ↦
      let whole : trim_right (c ∷ s) ≡ c ∷ [] = trim_right-cons c s [] e ∙ rw n refl in
      ap (words cur) whole
      ∙ words-letter cur c [] n
      ∙ ap (words (cur ++ c ∷ [])) (sym e)
      ∙ ih (cur ++ c ∷ [])
      ∙ sym (words-letter cur c s n)
]
words-kept c s (d ∷ r) ih e cur =
    let whole : trim_right (c ∷ s) ≡ c ∷ trim_right s =
      trim_right-cons c s (d ∷ r) e ∙ ap (λ t. c ∷ t) (sym e) in
    ap (words cur) whole ∙ elim (Bool-cases (is_space c)) [
      | inl y ↦
          words-space cur c (trim_right s) y
          ∙ ap (push_word cur) (ih [])
          ∙ sym (words-space cur c s y)
      | inr n ↦
          words-letter cur c (trim_right s) n ∙ ih (cur ++ c ∷ []) ∙ sym (words-letter cur c s n)
    ]

words-trim_right : (s cur : Bytes) → words cur (trim_right s) ≡ words cur s
words-trim_right [] cur = unfold trim_right in refl
words-trim_right (c ∷ s) cur = words-kept c s (trim_right s) (words-trim_right s) refl cur

parse_string-trim_space : (s : Bytes) → parse_string (trim_space s) ≡ parse_string s
unfolding parse_string fields trim_space
parse_string-trim_space s =
    ap (λ l. assign_all l no_params) (words-trim_right (trim_left s) [] ∙ words-trim_left s)

keyed-Solid : (k v : Bytes) → solid k ≡ true → Solid v → Solid (k ++ v)
keyed-Solid k v e a = All-append (λ c. is_space c ≡ false) k v (solid-Solid k e) a

flag-Solid : (b : Bool) → Solid (flag b)
unfolding is_space
flag-Solid true = (refl, tt)
flag-Solid false = (refl, tt)

print-Solid :
    (p : Params) → Solid p.fog_server → Solid p.fog_action → Solid p.fog_host → All Solid (print p)
unfolding solid is_space
print-Solid p s a h = (
  keyed-Solid (codes "fog_server=") p.fog_server refl s,
  (
    keyed-Solid (codes "fog_action=") p.fog_action refl a,
    (
      keyed-Solid (codes "fog_host=") p.fog_host refl h,
      (keyed-Solid (codes "fog_debug=") (flag p.fog_debug) refl (flag-Solid p.fog_debug), tt),
    ),
  ),
)

-- A kernel command line whose last words set the four parameters to those of `p`, with any words in
-- front of them, is parsed to `p`, if no word and no parameter has white space in it.
pub parse-print :
    (env : Env) (h : History) (p : Params) (toks : List Bytes)
    → All Solid toks
    → Solid p.fog_server
    → Solid p.fog_action
    → Solid p.fog_host
    → env.answer h (read_file (codes "/proc/cmdline"))
      ≡ record { out = spaced (toks ++ print p); fault = none }
    → (parse env h).0 ≡ ok p
unfolding parse ◌>>=◌ try sys checked match_option pure
parse-print env h p toks ws s a host e =
    let all_solid = All-append Solid toks (print p) ws (print-Solid p s a host) in
    rw e (
      ap ok (
        parse_string-trim_space (spaced (toks ++ print p))
        ∙ parse_string-spaced (toks ++ print p) all_solid
        ∙ assign_all-append toks (print p) no_params
        ∙ assign_all-print p (assign_all toks no_params)))
