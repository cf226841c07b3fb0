-- ===== src/Tests/Start.antt =====
-- The order of addresses of agent/cmd/fos-agent/main.go, and the disk of agent/internal/disk.
use mathlib.Core.List.{Perm}
use fos_next.Prelude.{List, [], ◌∷◌, Bytes, codes, here, there, ok, ◌≡◌, refl}
use fos_next.Boot.Reorder.{reorder}
use fos_next.Boot.Reorder.Moved.{StartsWith, reorder-Perm, reorder-StartsWith}
use fos_next.Strings.{
  equal, fields, split, trim_space, trim_left, trim_right, is_space, words, push_word, split_on,
  last, is_digit,
}
use fos_next.Strconv.{parse_int, signed, unsigned, scan_uint}
use fos_next.World.{
  pure, fail, attempt, match_result, match_option, ◌>>=◌, sys, exec_with, combined_output, checked,
  output, wrapped,
}
use fos_next.Disk.{
  Disk, primary, list, read_lines, read_line, add_disk, parse_size, multiplier, with_unit,
  some_disks, sort, insert, first_path,
}
use fos_next.Disk.Largest.{Chosen, primary-Chosen}
use fos_next.Tests.{demo_env}

abbrev demo_macs : List Bytes
demo_macs = codes "aa" ∷ codes "bb" ∷ codes "cc" ∷ []

reorder-Perm_example : Perm demo_macs (reorder demo_macs (codes "cc"))
reorder-Perm_example = reorder-Perm demo_macs (codes "cc")

reorder-StartsWith_example : StartsWith (codes "cc") (reorder demo_macs (codes "cc"))
reorder-StartsWith_example = reorder-StartsWith demo_macs (codes "cc") (there (there here))

primary_found : (primary demo_env []).0 ≡ ok (codes "/dev/sda")
unfolding primary list read_lines read_line add_disk parse_size multiplier with_unit some_disks sort
    insert first_path pure fail attempt match_result match_option ◌>>=◌ sys exec_with
    combined_output checked output wrapped equal fields split trim_space trim_left trim_right
    is_space words push_word split_on last is_digit parse_int signed unsigned scan_uint
primary_found = refl

primary-Chosen_example :
    (ds : List Disk) × ((list demo_env []).0 ≡ ok ds) × Chosen ds (codes "/dev/sda")
primary-Chosen_example = primary-Chosen demo_env [] (codes "/dev/sda") primary_found
