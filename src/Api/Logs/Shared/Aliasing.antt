-- ===== src/Api/Logs/Shared/Aliasing.antt =====
-- What a handler that `WithAttrs` or `WithGroup` of agent/internal/api/loghandler.go derives shares
-- with its parent.
use fos_next.Prelude.{ℕ, suc, ◌+◌, ◌<◌, true, false, [], ◌∷◌, ◌++◌, ltb, leb, ◌≡◌, ap, ◌∙◌, arith}
use fos_next.Wire.{LogEntry}
use fos_next.Api.Logs.{remote_buffer_cap}
use fos_next.Api.Logs.Slices.{Heap, read, contents, with_array, with_cell, append}
use fos_next.Api.Logs.Slices.Laws.{read-ext, with_array_self, with_cell_ne, read-with_cell}
use fos_next.Api.Logs.Shared.{SharedHandler, with_attrs, made_room, handle_shared}

module _ (grow : ℕ → ℕ) (e : LogEntry) (m : Heap) (h : SharedHandler) where
  -- A record that finds room in the array goes into the cell behind the buffer.
  handle_in_place :
      h.buf.len < h.buf.cap
      → h.buf.len < remote_buffer_cap
      → handle_shared grow e m h ≡ (
        with_array m h.buf.array (with_cell (m.cell h.buf.array) (h.buf.off + h.buf.len) e),
        record h { buf = record (h.buf) { len = h.buf.len + 1 } },
      )
  unfolding handle_shared made_room append
  handle_in_place room small =
      let p : leb remote_buffer_cap h.buf.len ≡ false = ground arith in
      let q : ltb h.buf.len h.buf.cap ≡ true = ground arith in rw (p, q)

  -- Where both handlers write into one cell, the second write stays.
  overwritten :
      (f : LogEntry)
      → read
          (with_cell
            (with_cell (m.cell h.buf.array) (h.buf.off + h.buf.len) e)
            (h.buf.off + h.buf.len)
            f)
          h.buf.off
          (suc h.buf.len)
        ≡ contents m h.buf ++ f ∷ []
  unfolding contents
  overwritten f =
      let c = m.cell h.buf.array in
      let i = h.buf.off + h.buf.len in
      read-with_cell (with_cell c i e) h.buf.off h.buf.len f
      ∙ ap (λ l. l ++ f ∷ [])
          (read-ext (with_cell c i e) c h.buf.off h.buf.len
            (λ j lo hi. with_cell_ne c i j e (λ p. omega arith)))

-- the heap behind a write of `e` and one of `f` into the cell behind a buffer
abbrev one_write : LogEntry → Heap → SharedHandler → Heap
one_write e m h =
    with_array m h.buf.array (with_cell (m.cell h.buf.array) (h.buf.off + h.buf.len) e)

after_both :
    (e : LogEntry) (m : Heap) (h : SharedHandler) (f : LogEntry)
    → contents (one_write f (one_write e m h) h) (record (h.buf) { len = h.buf.len + 1 })
      ≡ contents m h.buf ++ f ∷ []
unfolding contents
after_both e m h f =
    let one : h.buf.len + 1 ≡ suc h.buf.len = omega arith in
    rw (one, with_array_self, with_array_self) (overwritten (λ n. n) e m h f)

-- `e` is logged by the derived handler, and then `f` by its parent.
module _ (grow : ℕ → ℕ) (e f : LogEntry) (m : Heap) (h : SharedHandler) where
  abbrev pub by_child : Heap × SharedHandler
  by_child = handle_shared grow e m (with_attrs h)

  abbrev pub by_parent : Heap × SharedHandler
  by_parent = handle_shared grow f by_child.0 h

  -- A handler that `WithAttrs` derives from one with room in its array loses a record: once the parent
  -- logs too, the derived handler holds the parent's record in the place of its own, as the parent does.
  pub derived_overwritten :
      h.buf.len < h.buf.cap
      → h.buf.len < remote_buffer_cap
      → (contents by_parent.0 by_child.1.buf ≡ contents m h.buf ++ f ∷ [])
        × (contents by_parent.0 by_parent.1.buf ≡ contents m h.buf ++ f ∷ [])
  unfolding with_attrs
  derived_overwritten room small =
      let child = handle_in_place grow e m (with_attrs h) room small in
      let m1 =
        with_array m h.buf.array (with_cell (m.cell h.buf.array) (h.buf.off + h.buf.len) e) in
      let parent = handle_in_place grow f m1 h room small in
      rw (child, parent) (after_both e m h f, after_both e m h f)
