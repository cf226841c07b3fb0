-- ===== src/Tests/Numbers.antt =====
-- Runs of `DiscoverPartitions` of agent/internal/disk and `Capture` of agent/internal/actions on a
-- disk whose only partition is number 2.
use fos_next.Prelude.{
  ℕ, ◌+◌, ◌<◌, Bool, true, false, [], none, some, Bytes, codes, if◌then◌else◌, ok, ◌≡◌, refl, arith,
}
use fos_next.Strings.{
  equal, fields, split, trim_space, trim_left, trim_right, is_space, words, push_word, split_on,
  last, is_digit, after_last, to_lower, lower,
}
use fos_next.Strconv.{
  itoa, digits, base, strip_slashes, last_element, parse_int, signed, unsigned, scan_uint,
}
use fos_next.World.{
  Syscall, stat, Reply, Env, pure, fail, attempt, lift, ask, branch, match_result, match_option,
  ◌>>=◌, deferred, sys, send, exec_with, combined_output, checked, output, try, wrapped, expect,
}
use fos_next.Api.{upload_part, upload_request, upload_response, set_image_meta}
use fos_next.Disk.{
  primary, list, read_lines, read_line, add_disk, parse_size, multiplier, with_unit, some_disks,
  sort, insert, first_path, partition_device, is_digit?, discover_from, discover_partitions,
}
use fos_next.Disk.Numbers.{is_none, Settled}
use fos_next.Partition.{backup, backup_gpt, detect_table_type}
use fos_next.Imaging.{clone, partclone, partclone_bin}
use fos_next.Imaging.Status.{poll_rounds, read_status, use_fields, last_line}
use fos_next.Actions.Parts.{failing, detect_filesystem}
use fos_next.Actions.Capture.{
  capture_steps, capture_parts, capture_part, upload_image, refuse_bitlocker, note_fixed,
}
use fos_next.Actions.Capture.Rounds.{Captured, capture_gap}
use fos_next.Tests.{demo_env, demo_client, demo_resp, demo_answer}

abbrev disk_path : Bytes
disk_path = codes "/dev/sda"

abbrev gap_answer : Syscall → Reply
gap_answer (stat path) = record {
  out = [];
  fault = if equal path (codes "/dev/sda2") then none else some (codes "no such file or directory");
}
gap_answer c = demo_answer c

-- the world, with partition 2 only
abbrev gap_env : Env
gap_env = record demo_env { answer = λ h c. gap_answer c }

abbrev second_only : ℕ → Bool
second_only n = is_none (gap_answer (stat (partition_device disk_path n))).fault

second_only-Settled : Settled gap_env disk_path second_only
second_only-Settled h n = refl

sda_chosen : (primary gap_env []).0 ≡ ok disk_path
unfolding primary list read_lines read_line add_disk parse_size multiplier with_unit some_disks sort
    insert first_path pure fail attempt match_result match_option ◌>>=◌ sys exec_with
    combined_output checked output wrapped equal fields split trim_space trim_left trim_right
    is_space words push_word split_on last is_digit parse_int signed unsigned scan_uint
sda_chosen = refl

second_there : second_only 2 ≡ true
unfolding partition_device is_digit? last is_digit base strip_slashes last_element itoa digits equal
second_there = refl

first_missing : second_only 1 ≡ false
unfolding partition_device is_digit? last is_digit base strip_slashes last_element itoa digits equal
first_missing = refl

gap_captured : (capture_steps gap_env demo_client demo_resp []).0 ≡ ok tt
unfolding capture_steps capture_parts capture_part upload_image refuse_bitlocker note_fixed failing
    detect_filesystem clone partclone partclone_bin poll_rounds read_status use_fields last_line
    backup backup_gpt detect_table_type upload_part upload_request upload_response set_image_meta
    discover_partitions discover_from primary list read_lines read_line add_disk parse_size
    multiplier with_unit some_disks sort insert first_path partition_device is_digit? pure fail
    attempt lift ask branch match_result match_option ◌>>=◌ deferred sys send exec_with
    combined_output checked output try wrapped expect equal fields split trim_space last is_digit
    itoa parse_int base trim_left trim_right is_space words push_word split_on digits signed
    unsigned scan_uint strip_slashes last_element to_lower lower after_last
gap_captured = refl

capture_gap_example :
    (n : ℕ) × (n < 1 + 1)
    × Captured gap_env demo_client demo_resp n
        (partition_device disk_path (1 + 1))
        []
        (capture_steps gap_env demo_client demo_resp []).1
capture_gap_example =
    capture_gap gap_env demo_client demo_resp [] disk_path second_only gap_captured sda_chosen
      second_only-Settled 1 (omega arith) second_there 1 (omega arith) (omega arith) first_missing
