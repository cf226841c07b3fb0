-- ===== src/Api/Logs/Slices.antt =====
-- Go slices of log entries: windows into arrays, which several slices can share.
pub mod Laws
use fos_next.Prelude.{
  ℕ, zero, suc, ◌+◌, ◌-◌, ◌≤◌, ◌<◌, min, Bool, true, false, ◌&&◌, List, [], ◌∷◌, ◌++◌, ltb, leb,
  ◌==◌, if◌then◌else◌, take, drop, length, ◌≡◌, ◌≢◌, refl, sym, ap, ◌∙◌, arith,
}
use fos_next.Wire.{LogEntry}

abbrev pub Cells : Type 0
Cells = ℕ → LogEntry

-- The arrays by number; those from `next` on are not in use.
pub record Heap : Type 0 where
  pub next : ℕ
  pub cell : ℕ → Cells

-- `cap` counts the cells of the array from `off` on.
pub record Slice : Type 0 where
  pub array : ℕ
  pub off : ℕ
  pub len : ℕ
  pub cap : ℕ

unfoldable pub read : Cells → ℕ → ℕ → List LogEntry
read c off zero = []
read c off (suc n) = c off ∷ read c (off + 1) n

-- the entries of a slice
unfoldable pub contents : Heap → Slice → List LogEntry
contents m s = read (m.cell s.array) s.off s.len

-- the heap with other cells in one array
unfoldable pub with_array : Heap → ℕ → Cells → Heap
with_array m a c = record m { cell = λ b. if b == a then c else m.cell b }

-- the cells with `e` at one index
unfoldable pub with_cell : Cells → ℕ → LogEntry → Cells
with_cell c i e j = if j == i then e else c j

-- the cells behind `copy(s, s[1:])`
unfoldable pub shifted : Cells → ℕ → ℕ → Cells
shifted c off len j = if leb off j && ltb (j + 1) (off + len) then c (j + 1) else c j

-- the cells of a new array with the entries of an old one, from index 0 on
unfoldable pub moved : Cells → ℕ → Cells
moved c off j = c (off + j)

-- `append(s, e)`: in place if there is room, else in a new array whose size `grow` gives
unfoldable pub append : (ℕ → ℕ) → LogEntry → Heap → Slice → Heap × Slice
append grow e m s =
    if ltb s.len s.cap
    then (
      with_array m s.array (with_cell (m.cell s.array) (s.off + s.len) e),
      record s { len = s.len + 1 },
    )
    else (
      record (with_array m m.next (with_cell (moved (m.cell s.array) s.off) s.len e)) {
        next = m.next + 1;
      },
      record { array = m.next; off = 0; len = s.len + 1; cap = grow s.cap },
    )

-- `copy(s, s[1:])` and `s[:len(s)-1]`
unfoldable pub drop_oldest : Heap → Slice → Heap × Slice
drop_oldest m s =
    (with_array m s.array (shifted (m.cell s.array) s.off s.len), record s { len = s.len - 1 })

-- `s[n:]`
unfoldable pub advance : ℕ → Slice → Slice
advance n s = record s { off = s.off + n; len = s.len - n; cap = s.cap - n }
