-- ===== src/Tests/Machines.antt =====
-- A machine that `Capture` of agent/internal/actions captures, with one partition, and one to which
-- `Deploy` deploys what a server has of it.
use fos_next.Prelude.{
  ℕ, Bool, true, [], ◌∷◌, ◌++◌, none, some, Bytes, codes, if◌then◌else◌, ok, ◌≡◌, refl,
}
use fos_next.Strings.{
  equal, fields, split, trim_space, trim_left, trim_right, is_space, words, push_word, split_on,
  last, is_digit, after_last, to_lower, lower,
}
use fos_next.Strconv.{
  itoa, digits, base, strip_slashes, last_element, parse_int, signed, unsigned, scan_uint,
}
use fos_next.Base64
use fos_next.Wire.{HandshakeResponse, table_gpt, Codec}
use fos_next.World.{
  Syscall, exec, stat, wait_exit, Reply, Response, replied, failed, Env, pure, fail, attempt, lift,
  ask, branch, match_result, match_option, ◌>>=◌, deferred, sys, send, exec_with, combined_output,
  checked, output, try, wrapped, expect,
}
use fos_next.Api.{
  upload_part, upload_request, upload_response, set_image_meta, download_part, download_request,
  download_response,
}
use fos_next.Disk.{
  primary, list, read_lines, read_line, add_disk, parse_size, multiplier, with_unit, some_disks,
  sort, insert, first_path, partition_device, is_digit?, discover_from, discover_partitions,
}
use fos_next.Disk.Numbers.{is_none, Settled}
use fos_next.Partition.{
  backup, backup_gpt, detect_table_type, restore, restore_gpt, restore_sgdisk_raw, decode64,
  reread_table,
}
use fos_next.Imaging
use fos_next.Imaging.{clone, partclone, partclone_bin, wait_error}
use fos_next.Imaging.Status.{poll_rounds, read_status, use_fields, last_line}
use fos_next.Actions.Parts.{failing, detect_filesystem}
use fos_next.Actions.Capture.{
  capture_steps, capture_parts, capture_part, upload_image, refuse_bitlocker, note_fixed,
}
use fos_next.Actions.Deploy.{
  starts_with_brace, read_all, restore_image, after_restore, is_fixed, try_part, attempt_loop,
  deploy_part, deploy_parts, deploy_table, grow_last, deploy_steps,
}
use fos_next.Tests.{demo_env, demo_client, demo_resp, demo_answer, demo_codec, write_table}

abbrev pub disk_path : Bytes
disk_path = codes "/dev/sda"

-- what partclone writes of a partition
abbrev pub image_bytes : Bytes
image_bytes = codes "partclone-image"

abbrev pub table_bytes : Bytes
table_bytes = write_table (record { type = table_gpt; sgdisk = []; sfdisk = []; mbr_raw = [] })

abbrev pub source_answer : Syscall → Reply
source_answer (stat path) = record {
  out = [];
  fault = if equal path (codes "/dev/sda1") then none else some (codes "no such file or directory");
}
source_answer (wait_exit c) = record { out = image_bytes; fault = none }
source_answer (exec c) =
    if equal c.name (codes "blkid")
    then record { out = codes "ntfs"; fault = none }
    else demo_answer (exec c)
source_answer c = demo_answer c

abbrev pub without_first : Bytes → Bytes
without_first [] = []
without_first (c ∷ s) = s

abbrev pub swap_codec : Codec
swap_codec = record demo_codec {
  unmarshal_meta = λ s. record { type = codes "swap"; uuid = without_first s };
}

-- the captured machine, with partition 1 only
abbrev pub source_env : Env
source_env = record demo_env { answer = λ h c. source_answer c; codec = swap_codec }

-- a response to the handshake that asks for a resizable image
abbrev pub resizable_resp : HandshakeResponse
resizable_resp = record demo_resp { image_type = codes "resizable" }

abbrev pub download_url : Bytes → Bytes
download_url part = codes "http://fog/api/v1/boot/images/3/download?part=" ++ part

-- the server of the other machine
abbrev pub serve : Bytes → Response
serve url =
    if equal url (download_url (codes "1"))
    then replied 200 (codes "200 OK") (record { out = image_bytes; fault = none })
    else if equal url (download_url (codes "0"))
    then replied 200 (codes "200 OK") (record { out = table_bytes; fault = none })
    else failed (codes "connection refused")

abbrev pub target_env : Env
target_env = record demo_env {
  respond = λ h r. if equal r.method (codes "GET") then serve r.url else demo_env.respond h r;
  codec = swap_codec;
}

abbrev pub exists : ℕ → Bool
exists n = is_none (source_answer (stat (partition_device disk_path n))).fault

pub exists-Settled : Settled source_env disk_path exists
exists-Settled h n = refl

pub source_chosen : (primary source_env []).0 ≡ ok disk_path
unfolding primary list read_lines read_line add_disk parse_size multiplier with_unit some_disks sort
    insert first_path pure fail attempt match_result match_option ◌>>=◌ sys exec_with
    combined_output checked output wrapped equal fields split trim_space trim_left trim_right
    is_space words push_word split_on last is_digit parse_int signed unsigned scan_uint
source_chosen = refl

pub target_chosen : (primary target_env []).0 ≡ ok disk_path
unfolding primary list read_lines read_line add_disk parse_size multiplier with_unit some_disks sort
    insert first_path pure fail attempt match_result match_option ◌>>=◌ sys exec_with
    combined_output checked output wrapped equal fields split trim_space trim_left trim_right
    is_space words push_word split_on last is_digit parse_int signed unsigned scan_uint
target_chosen = refl

pub first_there : exists 1 ≡ true
unfolding partition_device is_digit? last is_digit base strip_slashes last_element itoa digits equal
first_there = refl

pub source_captured : (capture_steps source_env demo_client demo_resp []).0 ≡ ok tt
unfolding capture_steps capture_parts capture_part upload_image refuse_bitlocker note_fixed
    Imaging.is_bitlocker_encrypted Imaging.has_bitlocker_id failing detect_filesystem clone
    partclone partclone_bin poll_rounds read_status use_fields last_line backup backup_gpt
    detect_table_type upload_part upload_request upload_response set_image_meta discover_partitions
    discover_from primary list read_lines read_line add_disk parse_size multiplier with_unit
    some_disks sort insert first_path partition_device is_digit? pure fail attempt lift ask branch
    match_result match_option ◌>>=◌ deferred sys send exec_with combined_output checked output try
    wrapped expect equal fields split trim_space last is_digit itoa parse_int base trim_left
    trim_right is_space words push_word split_on digits signed unsigned scan_uint strip_slashes
    last_element to_lower lower after_last Base64.encode
source_captured = refl

pub target_deployed : (deploy_steps target_env demo_client demo_resp []).0 ≡ ok tt
unfolding deploy_steps deploy_part deploy_parts attempt_loop try_part restore_image after_restore
    is_fixed read_all starts_with_brace deploy_table grow_last failing restore restore_gpt decode64
    Base64.decode Imaging.restore partclone wait_error poll_rounds read_status use_fields last_line
    detect_filesystem restore_sgdisk_raw reread_table primary list read_lines read_line add_disk
    parse_size multiplier with_unit some_disks sort insert first_path partition_device is_digit?
    download_part download_request download_response pure fail attempt lift ask branch match_result
    match_option ◌>>=◌ deferred sys send exec_with combined_output checked output try wrapped expect
    equal fields split trim_space last is_digit itoa parse_int base trim_left trim_right is_space
    words push_word split_on digits signed unsigned scan_uint strip_slashes last_element to_lower
    lower after_last Base64.decode_groups Base64.drop_line_ends
target_deployed = refl
