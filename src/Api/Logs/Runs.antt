-- ===== src/Api/Logs/Runs.antt =====
-- Runs of the log handler of agent/internal/api/loghandler.go: any interleaving of records, flushes
-- and `SetClient` calls, each of which is atomic under the handler's lock.
use mathlib.Core.List.{Sublist}
use mathlib.Core.List.Sublist
use fos_next.Prelude.{
  ℕ, ◌+◌, ◌≤◌, Bool, List, [], ◌∷◌, ◌++◌, Option, none, some, Bytes, leb, if◌then◌else◌, length,
  drop, ◌≡◌, refl, ap, arith, length-append, length-drop, take-append-drop, append_assoc,
  append-nil, Bool-cases, inl, inr,
}
use fos_next.Wire.{LogEntry}
use fos_next.Api.{Client}
use fos_next.Api.Logs.{
  RemoteHandler, new_remote_handler, set_client, handle, batch_size, Batch, flush, flush_with,
  remote_buffer_cap,
}

pub data Op : Type 0 where
  record_logged : LogEntry → Op
  ticked : Op
  connected : Client → Bytes → Op

-- The handler, the entries that were sent and the number of entries that were dropped.
pub record Run : Type 0 where
  pub handler : RemoteHandler
  pub sent : List LogEntry
  pub dropped : ℕ

unfoldable pub batch_entries : Option Batch → List LogEntry
batch_entries none = []
batch_entries (some b) = b.request.entries

unfoldable pub is_full : RemoteHandler → Bool
is_full h = leb remote_buffer_cap (length h.buf)

unfoldable pub step : Op → Run → Run
step (record_logged e) r = record {
  handler = handle e r.handler;
  sent = r.sent;
  dropped = if is_full r.handler then r.dropped + 1 else r.dropped;
}
step ticked r =
    let (h, batch) = flush r.handler in
    record { handler = h; sent = r.sent ++ batch_entries batch; dropped = r.dropped }
step (connected c t) r = record r { handler = set_client c t r.handler }

unfoldable pub run : List Op → Run → Run
run [] r = r
run (op ∷ ops) r = run ops (step op r)

abbrev pub start : Run
start = record { handler = new_remote_handler; sent = []; dropped = 0 }

-- the entries that are logged, in order
abbrev pub logged : List Op → List LogEntry
logged [] = []
logged (record_logged e ∷ ops) = e ∷ logged ops
logged (ticked ∷ ops) = logged ops
logged (connected c t ∷ ops) = logged ops

flush_with-moves :
    (c : Option Client) (h : RemoteHandler)
    → batch_entries (flush_with c h).1 ++ (flush_with c h).0.buf ≡ h.buf
unfolding flush_with batch_entries
flush_with-moves none h = refl
flush_with-moves (some c) h = ground (arith, take-append-drop (batch_size (length h.buf)) h.buf)

-- A flush moves a batch from the front of the buffer to the entries sent.
pub flush-moves : (h : RemoteHandler) → batch_entries (flush h).1 ++ (flush h).0.buf ≡ h.buf
unfolding flush flush_with batch_entries
flush-moves h = flush_with-moves h.client h

drop_one-sublist : (l : List LogEntry) → Sublist (drop 1 l) l
drop_one-sublist [] = Sublist.refl []
drop_one-sublist (x ∷ xs) = Sublist.cons x (Sublist.refl xs)

-- What holds between two operations, for the entries `es` that have been logged.
pub record Inv (es : List LogEntry) (r : Run) : Type 0 where
  pub ordered : Sublist (r.sent ++ r.handler.buf) es
  pub counted : length es ≡ length r.sent + length r.handler.buf + r.dropped
  pub bounded : length r.handler.buf ≤ remote_buffer_cap

kept : RemoteHandler → List LogEntry
kept h = if is_full h then drop 1 h.buf else h.buf

kept-sublist : (h : RemoteHandler) → Sublist (kept h) h.buf
unfolding kept
kept-sublist h = elim (Bool-cases (is_full h)) [
  | inl full ↦ rw full (drop_one-sublist h.buf)
  | inr room ↦ rw room (Sublist.refl h.buf)
]

logged-Inv :
    (e : LogEntry) (es : List LogEntry) (r : Run)
    → Inv es r
    → Inv (es ++ e ∷ []) (step (record_logged e) r)
unfolding step handle is_full kept
logged-Inv e es r inv = record {
  ordered = rw (← append_assoc) (
      Sublist.append
        (Sublist.trans (Sublist.append (Sublist.refl r.sent) (kept-sublist r.handler)) inv.ordered)
        (Sublist.refl (e ∷ [])));
  counted = ground (
    arith,
    length-append es (e ∷ []),
    length-append (drop 1 r.handler.buf) (e ∷ []),
    length-append r.handler.buf (e ∷ []),
    length-drop 1 r.handler.buf,
  );
  bounded = ground (
    arith,
    length-append es (e ∷ []),
    length-append (drop 1 r.handler.buf) (e ∷ []),
    length-append r.handler.buf (e ∷ []),
    length-drop 1 r.handler.buf,
  );
}

ticked-Inv : (es : List LogEntry) (r : Run) → Inv es r → Inv es (step ticked r)
unfolding step
ticked-Inv es r inv =
    let moved = flush-moves r.handler in
    let lengths = ap length moved in
    record {
      ordered = rw (append_assoc, moved) inv.ordered;
      counted = omega (
        arith,
        lengths,
        length-append (batch_entries (flush r.handler).1) (flush r.handler).0.buf,
        length-append r.sent (batch_entries (flush r.handler).1),
      );
      bounded = omega (
        arith,
        lengths,
        length-append (batch_entries (flush r.handler).1) (flush r.handler).0.buf,
        length-append r.sent (batch_entries (flush r.handler).1),
      );
    }

step-Inv :
    (op : Op) (es : List LogEntry) (r : Run) → Inv es r → Inv (es ++ logged (op ∷ [])) (step op r)
unfolding set_client
step-Inv (record_logged e) es r inv = logged-Inv e es r inv
step-Inv ticked es r inv = rw append-nil (ticked-Inv es r inv)
step-Inv (connected c t) es r inv =
    rw append-nil (
      unfold step in record { ordered = inv.ordered; counted = inv.counted; bounded = inv.bounded })

logged-cons : (op : Op) (ops : List Op) → logged (op ∷ ops) ≡ logged (op ∷ []) ++ logged ops
logged-cons (record_logged e) ops = refl
logged-cons ticked ops = refl
logged-cons (connected c t) ops = refl

run-Inv_from :
    (ops : List Op) (es : List LogEntry) (r : Run) → Inv es r → Inv (es ++ logged ops) (run ops r)
unfolding run
run-Inv_from [] es r inv = rw append-nil inv
run-Inv_from (op ∷ ops) es r inv =
    rw (logged-cons op ops, ← append_assoc) (run-Inv_from ops _ (step op r) (step-Inv op es r inv))

-- After any sequence of records, flushes and `SetClient` calls on a new handler: the entries sent,
-- followed by those in the buffer, are a subsequence of the entries logged, in the order of logging;
-- the entries missing from it are as many as were dropped, one for each record that found the buffer
-- full; and the buffer holds at most 2000 entries.
pub run-Inv : (ops : List Op) → Inv (logged ops) (run ops start)
run-Inv ops = run-Inv_from ops [] start (
    unfold new_remote_handler in
    record { ordered = Sublist.refl []; counted = omega arith; bounded = omega arith })
