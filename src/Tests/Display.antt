-- ===== src/Tests/Display.antt =====
-- Runs of the progress display and of the byte reader of agent/internal/actions/sys.go.
use fos_next.Prelude.{
  ◌*◌, ◌/◌, ◌≤◌, min, pos, negsuc, true, [], ◌∷◌, none, some, Bytes, codes, ◌≡◌, ◌↔◌, arith,
}
use fos_next.Actions.Display.{ProgressDisplay, Formats, update, line_of}
use fos_next.Actions.Display.Width.{runes, lit, update_outcome}
use fos_next.Actions.ByteReader.{bytes_reader, read_all_sized}
use fos_next.Actions.ByteReader.Drained.{bytes_reader_drains}

abbrev demo_formats : Formats
demo_formats = record {
  mib_per_minute = λ bpm. codes "  1.0";
  eta = λ elapsed pct. codes "  ETA 1m";
  rounded = λ elapsed. codes "1m0s";
}

abbrev demo_display : ProgressDisplay
demo_display = record { part = 1; total = 2; label = codes "ntfs"; last_pct = pos 0 }

update_outcome_example :
    ((b : Bytes) × (update demo_formats demo_display 30 (pos 52) (pos 800)
        ≡ some (
          record demo_display { last_pct = pos 52 },
          line_of demo_formats 30 (pos 52) (pos 800) b,
        ))
      × (runes b ≡ 40)
      × (lit b ≡ min 40 (52 * 40 / 100)))
    × ((update demo_formats demo_display 30 (negsuc 52) (pos 800) ≡ none) ↔ (2 ≤ 52))
update_outcome_example = update_outcome demo_formats demo_display 30 52 (pos 800) (omega arith)

bytes_reader_drains_example :
    read_all_sized (2 ∷ 1 ∷ 9 ∷ 9 ∷ []) (bytes_reader (codes "abc")) ≡ (codes "abc", true)
bytes_reader_drains_example =
    bytes_reader_drains (codes "abc") (2 ∷ 1 ∷ 9 ∷ 9 ∷ [])
      (omega arith, (omega arith, (omega arith, (omega arith, tt)))) (omega arith)
