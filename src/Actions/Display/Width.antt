-- ===== src/Actions/Display/Width.antt =====
-- The bar that `update` of agent/internal/actions/sys.go draws.
use fos_next.Prelude.{
  ℕ, zero, suc, ◌+◌, ◌-◌, ◌*◌, ◌/◌, ◌^◌, ◌≤◌, ◌<◌, min, ℤ, pos, negsuc, mul_int64, false, ◌&&◌, [],
  ◌∷◌, ◌++◌, none, some, Bytes, codes, leb, ltb, ◌==◌, if◌then◌else◌, ◌≡◌, ◌↔◌, refl, arith,
  Bool-cases, inl, inr,
}
use fos_next.Actions.Display.{
  ProgressDisplay, Formats, bar_width, full_cell, light_cell, repeat, div_int, bar_of, bar, line_of,
  drawn, update, below_hundred, ended, finish,
}

-- The characters of a text in UTF-8: the bytes that begin one.
unfoldable pub runes : Bytes → ℕ
runes [] = 0
runes (c ∷ s) = (if leb 0x80 c && ltb c 0xc0 then 0 else 1) + runes s

-- the cells `█` of a bar
unfoldable pub lit : Bytes → ℕ
lit [] = 0
lit (c ∷ s) = (if c == 0x88 then 1 else 0) + lit s

full_runes :
    (n : ℕ) (s : Bytes)
    → (runes (repeat full_cell n ++ s) ≡ n + runes s) × (lit (repeat full_cell n ++ s) ≡ n + lit s)
unfolding runes lit repeat
full_runes zero s = (omega arith, omega arith)
full_runes (suc n) s = let (a, b) = full_runes n s in (omega arith, omega arith)

light_runes : (n : ℕ) → (runes (repeat light_cell n) ≡ n) × (lit (repeat light_cell n) ≡ 0)
unfolding runes lit repeat
light_runes zero = (refl, refl)
light_runes (suc n) = let (a, b) = light_runes n in (omega arith, omega arith)

scaled_pos : (n : ℕ) → n < 2 ^ 57 → mul_int64 (pos n) bar_width ≡ pos (n * 40)
unfolding mul_int64
scaled_pos n h = ground arith

scaled_negsuc : (n : ℕ) → n < 2 ^ 57 → mul_int64 (negsuc n) bar_width ≡ negsuc (suc n * 40 - 1)
unfolding mul_int64
scaled_negsuc n h = ground arith

bar_pos : (n : ℕ) → n < 2 ^ 57 → bar (pos n) ≡ bar_of (pos (n * 40 / 100))
unfolding bar div_int
bar_pos n h = rw (scaled_pos n h) refl

whole : (runes (repeat full_cell 40) ≡ 40) × (lit (repeat full_cell 40) ≡ 40)
unfolding runes lit repeat
whole = (refl, refl)

bar_of-width :
    (k : ℕ) → (b : Bytes) × (bar_of (pos k) ≡ some b) × (runes b ≡ 40) × (lit b ≡ min 40 k)
unfolding bar_of
bar_of-width k = elim (Bool-cases (leb 40 k)) [
  | inl y ↦ (repeat full_cell 40, rw y refl, whole.0, ground (arith, whole.1))
  | inr n ↦
      let (all, cells) = full_runes k (repeat light_cell (40 - k)) in
      let (light, dark) = light_runes (40 - k) in
      (repeat full_cell k ++ repeat light_cell (40 - k), rw n refl, ground arith, ground arith)
]

module _ (f : Formats) (d : ProgressDisplay) (elapsed : ℕ) where
  -- For a percentage that is not negative `update` draws a bar of 40 cells, of which the percentage of
  -- 40, rounded down, are full, and all of them from 100 on; the display holds the percentage then.
  update_draws :
      (n : ℕ) (bpm : ℤ)
      → n < 2 ^ 57
      → (b : Bytes) × (update f d elapsed (pos n) bpm
          ≡ some (record d { last_pct = pos n }, line_of f elapsed (pos n) bpm b))
        × (runes b ≡ 40)
        × (lit b ≡ min 40 (n * 40 / 100))
  unfolding update drawn
  update_draws n bpm h =
      let (b, drawn_bar, width, cells) = bar_of-width (n * 40 / 100) in
      (b, rw (bar_pos n h, drawn_bar) refl, width, cells)

  -- For a negative percentage from -2 ^ 57 on, `update` panics exactly from -3 down.
  update_panics :
      (n : ℕ) (bpm : ℤ) → n < 2 ^ 57 → (update f d elapsed (negsuc n) bpm ≡ none) ↔ (2 ≤ n)
  unfolding update drawn bar div_int bar_of
  update_panics n bpm h =
      rw (scaled_negsuc n h) (elim (Bool-cases (suc (suc n * 40 - 1) / 100 == 0)) [
        | inl y ↦
            let small : n < 2 = ground arith in
            rw y ((λ p. absurd (cc p)), (λ le. absurd (omega arith)))
        | inr z ↦ let large : 2 ≤ n = ground arith in rw z ((λ p. large), (λ le. refl))
      ])

  -- For a percentage `n` from 0 on `update` draws a bar of 40 cells, of which the percentage of 40,
  -- rounded down, are full, and all of them from 100 on; the display holds the percentage then. For
  -- the negative percentage `-1 - n` it panics exactly if that is -3 or less. Both hold below 2 ^ 57.
  pub update_outcome :
      (n : ℕ) (bpm : ℤ)
      → n < 2 ^ 57
      → ((b : Bytes) × (update f d elapsed (pos n) bpm
            ≡ some (record d { last_pct = pos n }, line_of f elapsed (pos n) bpm b))
          × (runes b ≡ 40)
          × (lit b ≡ min 40 (n * 40 / 100)))
        × ((update f d elapsed (negsuc n) bpm ≡ none) ↔ (2 ≤ n))
  update_outcome n bpm h = (update_draws n bpm h, update_panics n bpm h)

  -- `done` does not panic, and leaves a display that has been at 100 percent or more.
  finish_total :
      (d' : ProgressDisplay) × (text : Bytes) × (finish f d elapsed ≡ some (d', text))
      × (below_hundred d'.last_pct ≡ false)
  unfolding finish ended
  finish_total = elim (Bool-cases (below_hundred d.last_pct)) [
    | inl y ↦
        let (b, shown, _, _) = update_draws 100 (pos 0) (omega arith) in
        (
          record d { last_pct = pos 100 },
          line_of f elapsed (pos 100) (pos 0) b ++ codes "\n",
          rw (y, shown) refl,
          unfold below_hundred in refl,
        )
    | inr n ↦ (d, codes "\n", rw n refl, n)
  ]
