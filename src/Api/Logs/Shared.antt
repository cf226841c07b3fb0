-- ===== src/Api/Logs/Shared.antt =====
-- agent/internal/api/loghandler.go with its buffer as a slice, which `WithAttrs` and `WithGroup` hand
-- to the handler that they derive.
pub mod View
pub mod Aliasing
use fos_next.Prelude.{
  ℕ, ◌+◌, Bool, true, false, List, [], ◌∷◌, ◌++◌, Option, none, some, Bytes, leb, ◌==◌,
  if◌then◌else◌,
}
use fos_next.Wire.{LogEntry}
use fos_next.Api.{Client}
use fos_next.Api.Logs.{remote_buffer_cap, batch_size, Batch}
use fos_next.Api.Logs.Runs.{Op, record_logged, ticked, connected, batch_entries}
use fos_next.Api.Logs.Slices.{Heap, Slice, read, contents, append, drop_oldest, advance}

-- `RemoteHandler`, without its delegate and its lock
pub record SharedHandler : Type 0 where
  pub buf : Slice
  pub client : Option Client
  pub task_id : Bytes

-- `NewRemoteHandler`, with `make([]LogEntry, 0, remoteBufferCap)` as the next array
unfoldable pub new_shared : Heap → Heap × SharedHandler
new_shared m = (
  record m { next = m.next + 1 },
  record {
    buf = record { array = m.next; off = 0; len = 0; cap = remote_buffer_cap };
    client = none;
    task_id = [];
  },
)

unfoldable pub set_client_shared : Client → Bytes → SharedHandler → SharedHandler
set_client_shared c task_id h = record h { client = some c; task_id = task_id }

-- `WithAttrs`: a handler of its own, with the same slice
unfoldable pub with_attrs : SharedHandler → SharedHandler
with_attrs h = record { buf = h.buf; client = h.client; task_id = h.task_id }

-- `WithGroup`
unfoldable pub with_group : SharedHandler → SharedHandler
with_group h = record { buf = h.buf; client = h.client; task_id = h.task_id }

-- the buffer that `Handle` appends to: one entry shorter if it is full
unfoldable pub made_room : Heap → Slice → Heap × Slice
made_room m s = if leb remote_buffer_cap s.len then drop_oldest m s else (m, s)

-- `Handle`; `grow` gives the capacity of an array that `append` allocates
unfoldable pub handle_shared : (ℕ → ℕ) → LogEntry → Heap → SharedHandler → Heap × SharedHandler
handle_shared grow e m h =
    let (m1, s1) = made_room m h.buf in
    let (m2, s2) = append grow e m1 s1 in (m2, record h { buf = s2 })

unfoldable pub flush_shared_with :
    Option Client → Heap → SharedHandler → SharedHandler × Option Batch
flush_shared_with none m h = (h, none)
flush_shared_with (some c) m h =
    let n = batch_size h.buf.len in
    if n == 0 then (h, none) else (
      record h { buf = advance n h.buf },
      some (record {
        client = c;
        request = record { task_id = h.task_id; entries = read (m.cell h.buf.array) h.buf.off n };
      }),
    )

-- `flush`: the batch is a copy, so the heap stays as it is
unfoldable pub flush_shared : Heap → SharedHandler → SharedHandler × Option Batch
flush_shared m h = flush_shared_with h.client m h

-- A run of one handler: the heap, the handler and the entries sent.
pub record SharedRun : Type 0 where
  pub heap : Heap
  pub handler : SharedHandler
  pub sent : List LogEntry

unfoldable pub step_shared : (ℕ → ℕ) → Op → SharedRun → SharedRun
step_shared grow (record_logged e) r =
    let (m, h) = handle_shared grow e r.heap r.handler in
    record { heap = m; handler = h; sent = r.sent }
step_shared grow ticked r =
    let (h, batch) = flush_shared r.heap r.handler in
    record { heap = r.heap; handler = h; sent = r.sent ++ batch_entries batch }
step_shared grow (connected c t) r = record r { handler = set_client_shared c t r.handler }

unfoldable pub run_shared : (ℕ → ℕ) → List Op → SharedRun → SharedRun
run_shared grow [] r = r
run_shared grow (op ∷ ops) r = run_shared grow ops (step_shared grow op r)

abbrev pub start_shared : Heap → SharedRun
start_shared m = let (m', h) = new_shared m in record { heap = m'; handler = h; sent = [] }
