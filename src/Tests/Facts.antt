-- ===== src/Tests/Facts.antt =====
-- What the agent of agent/ reads of the kernel command line, of the hardware, of a partition table and
-- of partclone's status.
use fos_next.Prelude.{
  ℕ, List, false, Bool, not, ◌&&◌, ◌==◌, inl, inr, Bool-cases, pos, mul_int64, [], ◌∷◌, none, some,
  ◌*◌, ◌^◌, Bytes, codes, true, if◌then◌else◌, ok, ◌≡◌, refl, All,
}
use fos_next.Strings.{
  equal, fields, split, cut, has_prefix, trim_space, trim_left, trim_right, is_space, words,
  push_word, split_on, is_digit,
}
use fos_next.Strconv.{parse_int, signed, unsigned, scan_uint}
use fos_next.World.{
  Syscall, read_file, Reply, Env, pure, fail, attempt, ask, branch, match_result, match_option,
  ◌>>=◌, sys, exec_with, combined_output, checked, output, try, wrapped,
}
use fos_next.Cmdline.{Params, parse}
use fos_next.Strings.Solid.{Solid, solid, solid-Solid}
use fos_next.Cmdline.Printed.{parse-print}
use fos_next.Netup.{list_nics, read_nics}
use fos_next.Inventory.{
  Info, collect, read_cpu, scan_cpu, scan_cpu_line, first_model, read_ram, scan_ram, ram_field,
  ram_of, read_disk, disk_of, read_uuid, macs_of,
}
use fos_next.Inventory.Cpu.{Counted, collect-Counted}
use fos_next.Partition.{
  last_partition_number, last_number, found_number, sscan_number, positive, leading_digits,
  digits_value, in_range,
}
use fos_next.Partition.Highest.{Highest, last_partition_number-Highest}
use fos_next.Imaging.Status.{ProgressFunc, status_file, is_number_byte, read_status}
use fos_next.Imaging.Lines.{Plain, Inline, behind}
use fos_next.Imaging.Printed.{giga, StatusLine, line_fields, read_status-printed}
use fos_next.World.{call}
use fos_next.Tests.{demo_env}

abbrev cmdline_params : Params
cmdline_params = record {
  fog_server = codes "http://10.0.0.1";
  fog_action = codes "deploy";
  fog_host = [];
  fog_debug = true;
}

-- the world, with a kernel command line that sets the server twice
abbrev cmdline_env : Env
cmdline_env = record demo_env {
  answer = λ h c. record {
    out =
        codes
          "quiet fog_server=http://old fog_server=http://10.0.0.1 fog_action=deploy fog_host= fog_debug=1\n";
    fault = none;
  };
}

front-Solid : All Solid (codes "quiet" ∷ codes "fog_server=http://old" ∷ [])
unfolding solid is_space
front-Solid =
    (solid-Solid (codes "quiet") refl, (solid-Solid (codes "fog_server=http://old") refl, tt))

server-Solid : Solid (codes "http://10.0.0.1")
unfolding solid is_space
server-Solid = solid-Solid (codes "http://10.0.0.1") refl

deploy-Solid : Solid (codes "deploy")
unfolding solid is_space
deploy-Solid = solid-Solid (codes "deploy") refl

parse-print_example : (parse cmdline_env []).0 ≡ ok cmdline_params
parse-print_example =
    parse-print cmdline_env [] cmdline_params (codes "quiet" ∷ codes "fog_server=http://old" ∷ [])
      front-Solid server-Solid deploy-Solid tt refl

abbrev facts_answer : Syscall → Reply
facts_answer (read_file path) = record {
  out =
      if equal path (codes "/proc/cpuinfo")
      then codes "processor : 0\nmodel name : A\n\nprocessor : 1\nmodel name : B\n"
      else codes "MemTotal: 2 kB\n";
  fault = none;
}
facts_answer c = record { out = codes "BYT;\n/dev/sda:9:x;\n1:a;\n3:b;\n2:c;\n"; fault = none }

-- the world, with two processors and three partitions
abbrev facts_env : Env
facts_env = record demo_env { answer = λ h c. facts_answer c }

abbrev facts : Info
facts = record {
  cpu_model = codes "A";
  cpu_cores = 2;
  ram_bytes = pos 2048;
  disk_bytes = pos 0;
  macs = [];
  uuid = codes "MemTotal: 2 kB";
}

facts_collected : (collect facts_env []).0 ≡ ok facts
unfolding collect read_cpu scan_cpu scan_cpu_line first_model read_ram scan_ram ram_field ram_of
    read_disk disk_of read_uuid macs_of list_nics read_nics equal fields split cut has_prefix
    trim_space trim_left trim_right is_space words push_word split_on parse_int signed unsigned
    scan_uint is_digit pure fail attempt ask branch match_result match_option ◌>>=◌ sys exec_with
    combined_output checked output try wrapped mul_int64
facts_collected = refl

collect-Counted_example :
    Counted
      (facts_env.answer [] (read_file (codes "/proc/cpuinfo"))).out
      facts.cpu_cores
      facts.cpu_model
collect-Counted_example = collect-Counted facts_env [] facts facts_collected

third_last : (last_partition_number facts_env (codes "/dev/sda") []).0 ≡ ok 3
unfolding last_partition_number last_number found_number sscan_number positive leading_digits
    digits_value in_range split cut split_on trim_left is_space is_digit signed scan_uint pure fail
    attempt match_result match_option ◌>>=◌ sys exec_with combined_output checked output wrapped
third_last = refl

last_partition_number-Highest_example :
    (out : Bytes) × ((output facts_env
        (codes "parted")
        (codes "-m" ∷ codes "-s" ∷ codes "/dev/sda" ∷ codes "print" ∷ [])
        []).0
      ≡ ok out)
    × Highest (split out b'\n') 3
last_partition_number-Highest_example =
    last_partition_number-Highest facts_env (codes "/dev/sda") [] 3 third_last

abbrev status_line : StatusLine
status_line = record {
  pad = 2;
  first = b'1';
  number = codes ".23";
  unit = codes "GB/min";
  elapsed = codes "00:00:01";
  remaining = codes "00:00:03";
  current = codes "128 MiB";
  size = codes "1 GiB";
  percent_pad = 1;
  percent = codes "25.00";
  total_first = b'1';
  total = codes "073741824.000000";
}

-- the world, with a status file of two lines
abbrev status_env : Env
status_env = record demo_env {
  answer = λ h c. record {
    out = codes "old\n  1.23GB/min@00:00:01@00:00:03@128 MiB@1 GiB@ 25.00@1073741824.000000\n";
    fault = none;
  };
  scaled = λ s k. if equal s (codes "1.23") then some (pos 9840000000) else some (pos 25);
}

abbrev no_report : ProgressFunc
no_report pct bpm = pure tt

speed_scaled : status_env.scaled (codes "1.23") (8 * 10 ^ 9) ≡ some (pos 9840000000)
unfolding equal
speed_scaled = refl

percent_scaled : status_env.scaled (codes "25.00") 1 ≡ some (pos 25)
unfolding equal
percent_scaled = refl

percent-Solid : Solid status_line.percent
unfolding solid is_space
percent-Solid = solid-Solid (codes "25.00") refl

total-Solid : Solid (status_line.total_first ∷ status_line.total)
unfolding solid is_space
total-Solid = solid-Solid (codes "1073741824.000000") refl

speed_digits : All (λ c. is_number_byte c ≡ true) (status_line.first ∷ status_line.number)
unfolding is_number_byte is_digit
speed_digits = (refl, (refl, (refl, (refl, tt))))

-- no byte of a text is this one
abbrev lacks : ℕ → Bytes → Bool
lacks d [] = true
lacks d (c ∷ s) = not (c == d) && lacks d s

lacks-All : (d : ℕ) (s : Bytes) → lacks d s ≡ true → All (λ c. (c == d) ≡ false) s
lacks-All d [] e = tt
lacks-All d (c ∷ s) e = elim (Bool-cases (c == d)) [
  | inl y ↦ absurd (cc (rw y at e))
  | inr n ↦ (n, lacks-All d s (rw n at e))
]

abbrev all_lack : ℕ → List Bytes → Bool
all_lack d [] = true
all_lack d (s ∷ ss) = lacks d s && all_lack d ss

all_lack-All :
    (d : ℕ) (ss : List Bytes) → all_lack d ss ≡ true → All (All (λ c. (c == d) ≡ false)) ss
all_lack-All d [] e = tt
all_lack-All d (s ∷ ss) e = elim (Bool-cases (lacks d s)) [
  | inl y ↦ (lacks-All d s y, all_lack-All d ss (rw y at e))
  | inr n ↦ absurd (cc (rw n at e))
]

fields-Plain : All Plain (line_fields status_line)
fields-Plain = all_lack-All b'@' (line_fields status_line) refl

fields-Inline : All Inline (line_fields status_line)
fields-Inline = all_lack-All b'\n' (line_fields status_line) refl

read_status-printed_example :
    read_status status_env no_report []
    ≡ no_report (pos 25) (pos 9840000000) (call (read_file status_file) ∷ [])
read_status-printed_example =
    read_status-printed status_env no_report [] (codes "old\n") status_line (8 * 10 ^ 9) (pos 25)
      (pos 9840000000) (behind (codes "old")) fields-Plain fields-Inline percent-Solid total-Solid
      speed_digits giga speed_scaled percent_scaled refl
