-- ===== src/Api/Logs/Entry.antt =====
-- `recordToEntry` of agent/internal/api/loghandler.go. The formats of times and levels, which are
-- those of `time` and `slog`, are parameters; a value is its text.
pub mod Attrs
use fos_next.Prelude.{ℤ, List, [], ◌∷◌, Bytes, if◌then◌else◌}
use fos_next.Strings.{equal}
use fos_next.Wire.{LogEntry}

-- what the code uses of a `slog.Record`
pub record SlogRecord : Type 0 where
  pub time : ℤ
  pub level : ℤ
  pub message : Bytes
  pub attrs : List (Bytes × Bytes)

pub record Formats : Type 0 where
  pub rfc3339_nano : ℤ → Bytes
  pub level_string : ℤ → Bytes

-- `e.Attrs[key] = value`
unfoldable pub put_attr : Bytes → Bytes → List (Bytes × Bytes) → List (Bytes × Bytes)
put_attr key value [] = (key, value) ∷ []
put_attr key value ((k, v) ∷ m) =
    let rest = put_attr key value m in if equal k key then (key, value) ∷ m else (k, v) ∷ rest

-- the loop of `r.Attrs`, with the map that it fills
unfoldable pub put_attrs : List (Bytes × Bytes) → List (Bytes × Bytes) → List (Bytes × Bytes)
put_attrs [] m = m
put_attrs ((key, value) ∷ attrs) m = put_attrs attrs (put_attr key value m)

-- `recordToEntry`
unfoldable pub record_to_entry : Formats → SlogRecord → LogEntry
record_to_entry f r = record {
  time = f.rfc3339_nano r.time;
  level = f.level_string r.level;
  msg = r.message;
  attrs = put_attrs r.attrs [];
}
