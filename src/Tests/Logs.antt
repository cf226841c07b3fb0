-- ===== src/Tests/Logs.antt =====
-- Runs of the log handler of agent/internal/api/loghandler.go on slices and with its requests.
use fos_next.Prelude.{
  ℕ, ◌+◌, ◌<◌, pos, List, [], ◌∷◌, ◌++◌, none, some, Bytes, codes, ok, ◌≡◌, refl, arith,
}
use fos_next.Wire.{LogEntry}
use fos_next.Api.Logs.{RemoteHandler}
use fos_next.Api.Logs.Runs.{Op, record_logged, ticked, connected, run, start}
use fos_next.Api.Logs.Slices.{Heap, contents}
use fos_next.Api.Logs.Shared.{SharedHandler, run_shared, start_shared}
use fos_next.Api.Logs.Shared.View.{Shows, run_shared-run}
use fos_next.Api.Logs.Shared.Aliasing.{by_child, by_parent, derived_overwritten}
use fos_next.Api.Logs.Entry.{SlogRecord, Formats, record_to_entry}
use fos_next.Api.Logs.Entry.Attrs.{lookup, last_value, lookup-record_to_entry}
use fos_next.Api.Logs.Forward.{drain_loop}
use fos_next.Api.Logs.Forward.Posted.{posted, drain_loop-posted}
use fos_next.Tests.{demo_env, demo_client}

abbrev saying : Bytes → LogEntry
saying msg = record { time = []; level = codes "INFO"; msg = msg; attrs = [] }

abbrev no_arrays : Heap
no_arrays = record { next = 0; cell = λ _ _. saying [] }

-- the growth of arrays of `append`
abbrev doubled : ℕ → ℕ
doubled n = n + n + 1

doubled_grows : (n : ℕ) → n < doubled n
doubled_grows n = omega arith

abbrev shared_ops : List Op
shared_ops =
    record_logged (saying (codes "up"))
    ∷ connected demo_client (codes "7")
    ∷ record_logged (saying (codes "go"))
    ∷ ticked
    ∷ []

run_shared-run_example :
    Shows (run_shared doubled shared_ops (start_shared no_arrays)) (run shared_ops start)
run_shared-run_example = run_shared-run doubled doubled_grows no_arrays shared_ops

abbrev roomy : SharedHandler
roomy = record {
  buf = record { array = 0; off = 1; len = 2; cap = 8 };
  client = none;
  task_id = [];
}

derived_overwritten_example :
    (contents
        (by_parent doubled (saying (codes "a")) (saying (codes "b")) no_arrays roomy).0
        (by_child doubled (saying (codes "a")) (saying (codes "b")) no_arrays roomy).1.buf
      ≡ contents no_arrays roomy.buf ++ saying (codes "b") ∷ [])
    × (contents
          (by_parent doubled (saying (codes "a")) (saying (codes "b")) no_arrays roomy).0
          (by_parent doubled (saying (codes "a")) (saying (codes "b")) no_arrays roomy).1.buf
        ≡ contents no_arrays roomy.buf ++ saying (codes "b") ∷ [])
derived_overwritten_example =
    derived_overwritten doubled (saying (codes "a")) (saying (codes "b")) no_arrays roomy
      (omega arith) (omega arith)

abbrev demo_formats : Formats
demo_formats = record { rfc3339_nano = λ t. codes "now"; level_string = λ l. codes "WARN" }

abbrev demo_record : SlogRecord
demo_record = record {
  time = pos 0;
  level = pos 4;
  message = codes "slow";
  attrs = (codes "part", codes "1") ∷ (codes "err", codes "eof") ∷ (codes "part", codes "2") ∷ [];
}

lookup-record_to_entry_example :
    lookup (codes "part") (record_to_entry demo_formats demo_record).attrs
    ≡ last_value (codes "part") demo_record.attrs
lookup-record_to_entry_example = lookup-record_to_entry demo_formats demo_record (codes "part")

abbrev waiting : RemoteHandler
waiting = record {
  buf = saying (codes "up") ∷ saying (codes "go") ∷ [];
  client = some demo_client;
  task_id = codes "7";
}

drain_loop-posted_example :
    (h' : RemoteHandler) × ((drain_loop demo_env none (λ _. []) 1 waiting []).0 ≡ ok h')
    × (h'.buf ≡ [])
    × (posted (drain_loop demo_env none (λ _. []) 1 waiting []).1 ≡ posted [] ++ waiting.buf)
drain_loop-posted_example =
    drain_loop-posted demo_env none (λ _. []) 1 waiting demo_client [] refl (omega arith)
