-- ===== src/Api/Logs.antt =====
-- agent/internal/api/loghandler.go: the handler that buffers log records and forwards them.
pub mod Runs
pub mod Drain
pub mod Latest
pub mod Slices
pub mod Shared
pub mod Entry
pub mod Forward
use fos_next.Prelude.{
  ℕ, suc, ◌+◌, ◌-◌, ◌≤◌, Bool, true, false, List, [], ◌∷◌, ◌++◌, Option, none, some, Bytes, ltb,
  leb, ◌==◌, if◌then◌else◌, length, take, drop,
}
use fos_next.Wire.{LogEntry, SendLogsRequest}
use fos_next.Api.{Client}

abbrev pub remote_buffer_cap : ℕ
remote_buffer_cap = 2000

abbrev pub remote_drain_batch : ℕ
remote_drain_batch = 100

-- `RemoteHandler`, without its delegate and its lock
pub record RemoteHandler : Type 0 where
  pub buf : List LogEntry
  pub client : Option Client
  pub task_id : Bytes

-- `NewRemoteHandler`
unfoldable pub new_remote_handler : RemoteHandler
new_remote_handler = record { buf = []; client = none; task_id = [] }

-- `SetClient`
unfoldable pub set_client : Client → Bytes → RemoteHandler → RemoteHandler
set_client c task_id h = record h { client = some c; task_id = task_id }

-- `Handle`, on the entry that `recordToEntry` makes: the oldest entry gives way if the buffer is full
unfoldable pub handle : LogEntry → RemoteHandler → RemoteHandler
handle entry h = record h {
  buf = (if leb remote_buffer_cap (length h.buf) then drop 1 h.buf else h.buf) ++ entry ∷ [];
}

-- the size of the batch that `flush` takes
unfoldable pub batch_size : ℕ → ℕ
batch_size n = if ltb remote_drain_batch n then remote_drain_batch else n

-- what is sent, and by which client
pub record Batch : Type 0 where
  pub client : Client
  pub request : SendLogsRequest

unfoldable pub flush_with : Option Client → RemoteHandler → RemoteHandler × Option Batch
flush_with none h = (h, none)
flush_with (some c) h =
    let n = batch_size (length h.buf) in
    if n == 0 then (h, none) else (
      record h { buf = drop n h.buf },
      some
          (record { client = c; request = record { task_id = h.task_id; entries = take n h.buf } }),
    )

-- `flush`: the handler as it is when the lock is released, and the request that is sent then. The
-- handler does not change when the request fails.
unfoldable pub flush : RemoteHandler → RemoteHandler × Option Batch
flush h = flush_with h.client h
