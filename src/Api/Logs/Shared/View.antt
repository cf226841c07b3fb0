-- ===== src/Api/Logs/Shared/View.antt =====
-- The log handler of agent/internal/api/loghandler.go on slices refines the one on lists.
use fos_next.Prelude.{
  ℕ, ◌≤◌, ◌<◌, List, [], ◌∷◌, ◌++◌, Option, none, some, Bytes, leb, ◌==◌, if◌then◌else◌, drop,
  length, ◌≡◌, refl, ap, arith, Bool-cases, inl, inr,
}
use fos_next.Wire.{LogEntry}
use fos_next.Api.{Client}
use fos_next.Api.Logs.{
  RemoteHandler, new_remote_handler, set_client, handle, flush, flush_with, batch_size, Batch,
  remote_buffer_cap,
}
use fos_next.Api.Logs.Runs.{
  Op, record_logged, ticked, connected, Run, step, run, start, batch_entries,
}
use fos_next.Api.Logs.Slices.{Heap, Slice, read, contents}
use fos_next.Api.Logs.Slices.Laws.{
  Fits, append-contents, append-Fits, drop_oldest-contents, drop_oldest-Fits, advance-contents,
  advance-Fits, length-contents, take-contents,
}
use fos_next.Api.Logs.Shared.{
  SharedHandler, new_shared, set_client_shared, made_room, handle_shared, flush_shared_with,
  flush_shared, SharedRun, step_shared, run_shared, start_shared,
}

-- the handler that a heap shows
unfoldable pub view : Heap → SharedHandler → RemoteHandler
view m h = record { buf = contents m h.buf; client = h.client; task_id = h.task_id }

made_room-contents :
    (m : Heap) (s : Slice)
    → contents (made_room m s).0 (made_room m s).1 ≡ (
        if leb remote_buffer_cap (length (contents m s))
        then drop 1 (contents m s)
        else contents m s)
unfolding made_room
made_room-contents m s = rw (length-contents m s) (elim (Bool-cases (leb remote_buffer_cap s.len)) [
  | inl y ↦ rw y (drop_oldest-contents m s (ground arith))
  | inr n ↦ rw n refl
])

made_room-Fits : (m : Heap) (s : Slice) → Fits m s → Fits (made_room m s).0 (made_room m s).1
unfolding made_room
made_room-Fits m s f = elim (Bool-cases (leb remote_buffer_cap s.len)) [
  | inl y ↦ rw y (drop_oldest-Fits m s f)
  | inr n ↦ rw n f
]

module _ (grow : ℕ → ℕ) (grows : (n : ℕ) → n < grow n) where
  handle_shared-view :
      (e : LogEntry) (m : Heap) (h : SharedHandler)
      → Fits m h.buf
      → view (handle_shared grow e m h).0 (handle_shared grow e m h).1 ≡ handle e (view m h)
  unfolding view handle_shared handle
  handle_shared-view e m h f =
      let (m1, s1) = made_room m h.buf in
      let added = append-contents grow grows e m1 s1 (made_room-Fits m h.buf f) in
      rw (added, made_room-contents m h.buf)

  handle_shared-Fits :
      (e : LogEntry) (m : Heap) (h : SharedHandler)
      → Fits m h.buf
      → Fits (handle_shared grow e m h).0 (handle_shared grow e m h).1.buf
  unfolding handle_shared
  handle_shared-Fits e m h f =
      append-Fits grow grows e (made_room m h.buf).0 (made_room m h.buf).1
        (made_room-Fits m h.buf f)

batch_size-le : (n : ℕ) → batch_size n ≤ n
unfolding batch_size
batch_size-le n = ground arith

-- What a flush of `h` gives on the slice and on the list.
abbrev Flushes :
    Heap → SharedHandler → SharedHandler × Option Batch → RemoteHandler × Option Batch → Type 0
Flushes m h a b = (view m a.0 ≡ b.0) × (a.1 ≡ b.1) × (Fits m h.buf → Fits m a.0.buf)

flush_shared_with-Flushes :
    (c : Option Client) (m : Heap) (h : SharedHandler)
    → Flushes m h (flush_shared_with c m h) (flush_with c (view m h))
unfolding flush_shared_with flush_with view
flush_shared_with-Flushes none m h = (refl, refl, λ f. f)
flush_shared_with-Flushes (some c) m h =
    rw (length-contents m h.buf) (elim (Bool-cases (batch_size h.buf.len == 0)) [
      | inl y ↦ rw y (refl, refl, λ f. f)
      | inr n ↦
          let moved = advance-contents m h.buf (batch_size h.buf.len) (batch_size-le h.buf.len) in
          let copied = take-contents m h.buf (batch_size h.buf.len) (batch_size-le h.buf.len) in
          rw (n, moved, copied) (refl, refl, advance-Fits m h.buf (batch_size h.buf.len))
    ])

flush_shared-Flushes :
    (m : Heap) (h : SharedHandler) → Flushes m h (flush_shared m h) (flush (view m h))
unfolding flush_shared flush view
flush_shared-Flushes m h = flush_shared_with-Flushes h.client m h

set_client-view :
    (c : Client) (t : Bytes) (m : Heap) (h : SharedHandler)
    → view m (set_client_shared c t h) ≡ set_client c t (view m h)
unfolding view set_client_shared set_client
set_client-view c t m h = refl

set_client-Fits :
    (c : Client) (t : Bytes) (m : Heap) (h : SharedHandler)
    → Fits m h.buf
    → Fits m (set_client_shared c t h).buf
unfolding set_client_shared
set_client-Fits c t m h f = f

-- What a run on slices and one on lists have in common.
pub record Shows (r : SharedRun) (s : Run) : Type 0 where
  pub shown : view r.heap r.handler ≡ s.handler
  pub same_sent : r.sent ≡ s.sent
  pub fits : Fits r.heap r.handler.buf

module _ (grow : ℕ → ℕ) (grows : (n : ℕ) → n < grow n) where
  step_shared-Shows :
      (op : Op) (r : SharedRun) (s : Run) → Shows r s → Shows (step_shared grow op r) (step op s)
  unfolding step_shared step
  step_shared-Shows (record_logged e) r s k = record {
    shown = rw (← k.shown) (handle_shared-view grow grows e r.heap r.handler k.fits);
    same_sent = k.same_sent;
    fits = handle_shared-Fits grow grows e r.heap r.handler k.fits;
  }
  step_shared-Shows ticked r s k =
      let (now, batch, fits) = flush_shared-Flushes r.heap r.handler in
      record {
        shown = rw (← k.shown) now;
        same_sent = rw (← k.shown, ← k.same_sent) (ap (λ b. r.sent ++ batch_entries b) batch);
        fits = fits k.fits;
      }
  step_shared-Shows (connected c t) r s k = record {
    shown = rw (← k.shown) (set_client-view c t r.heap r.handler);
    same_sent = k.same_sent;
    fits = set_client-Fits c t r.heap r.handler k.fits;
  }

  run_shared-Shows :
      (ops : List Op) (r : SharedRun) (s : Run)
      → Shows r s
      → Shows (run_shared grow ops r) (run ops s)
  unfolding run_shared run
  run_shared-Shows [] r s k = k
  run_shared-Shows (op ∷ ops) r s k =
      run_shared-Shows ops (step_shared grow op r) (step op s) (step_shared-Shows op r s k)

  start-Shows : (m : Heap) → Shows (start_shared m) start
  unfolding new_shared new_remote_handler view contents read
  start-Shows m = record {
    shown = refl;
    same_sent = refl;
    fits = record { room = omega arith; used = omega arith };
  }

  -- The handler on slices does what the one on lists does: over any sequence of records, flushes and
  -- `SetClient` calls on a handler that shares its array with no other, it sends the same entries, and
  -- its slice shows the same buffer, provided `append` allocates more cells than the slice had.
  pub run_shared-run :
      (m : Heap) (ops : List Op) → Shows (run_shared grow ops (start_shared m)) (run ops start)
  run_shared-run m ops = run_shared-Shows ops (start_shared m) start (start-Shows m)
