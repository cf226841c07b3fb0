-- ===== src/Tests/RoundTrip.antt =====
-- A run of `Capture` and then of `Deploy` of agent/internal/actions: a disk with one partition is
-- captured, and a server that has the two uploads serves them to another machine.
use fos_next.Prelude.{ℕ, ◌+◌, ◌≤◌, true, [], some, ok, ◌≡◌, refl, sym, ◌∙◌, arith}
use fos_next.Strings.{
  equal, fields, split, trim_space, trim_left, trim_right, is_space, words, push_word, split_on,
  last, is_digit, after_last, to_lower, lower,
}
use fos_next.Strconv.{
  itoa, digits, base, strip_slashes, last_element, parse_int, signed, unsigned, scan_uint,
}
use fos_next.Base64
use fos_next.World.{
  pure, fail, attempt, lift, ask, branch, match_result, match_option, ◌>>=◌, deferred, sys, send,
  exec_with, combined_output, checked, output, try, wrapped, expect,
}
use fos_next.Api.{
  post, post_loop, do_post, post_response, post_request, upload_part, upload_request,
  upload_response, set_image_meta, download_request, download_response,
}
use fos_next.Disk.{
  primary, list, read_lines, read_line, add_disk, parse_size, multiplier, with_unit, some_disks,
  sort, insert, first_path, partition_device, is_digit?, discover_from, discover_partitions,
}
use fos_next.Partition.{backup, backup_gpt, detect_table_type}
use fos_next.Imaging.{clone, partclone, partclone_bin}
use fos_next.Imaging.Status.{poll_rounds, read_status, use_fields, last_line}
use fos_next.Actions.Parts.{failing, detect_filesystem}
use fos_next.Actions.Capture.{
  capture_steps, capture_parts, capture_part, upload_image, refuse_bitlocker, note_fixed,
}
use fos_next.Actions.Capture.Numbering.{count}
use fos_next.Actions.Capture.Contents.{Uploaded}
use fos_next.Actions.Capture.Stored.{capture_steps-Uploaded}
use fos_next.Actions.Capture.Kept.{kept}
use fos_next.Actions.Deploy.{starts_with_brace, deploy_steps}
use fos_next.Actions.Deploy.Contents.{Restored}
use fos_next.Actions.Deploy.Served.{deploy_steps-Restored}
use fos_next.Actions.RoundTrip.{
  ReadsSwap, Braced, TextUuid, Unbraced, Transferred, TableTransferred,
}
use fos_next.Tests.{demo_client, demo_resp}
use fos_next.Actions.Parts.{report}
use fos_next.Actions.Parts.Claims.{claims}
use fos_next.Actions.Capture.{capture}
use fos_next.Actions.Deploy.{deploy}
use fos_next.Actions.Capture.Guard.{Guarded, capture_steps-Guarded}
use fos_next.Actions.Capture.{prepare, not_shrunk}
use fos_next.Actions.Capture.Meta.{Described, capture_steps-Described}
use fos_next.Actions.Success.{kept-capture, deploy-capture}
use fos_next.Api.{send_complete}
use fos_next.Api.{download_part}
use fos_next.Partition.{restore, restore_gpt, restore_sgdisk_raw, decode64, reread_table}
use fos_next.Imaging.{wait_error}
use fos_next.Actions.Deploy.{
  read_all, restore_image, after_restore, is_fixed, try_part, attempt_loop, deploy_part,
  deploy_parts, deploy_table, grow_last,
}
use fos_next.Imaging
use fos_next.Base64
use fos_next.Tests.Machines.{
  resizable_resp, disk_path, image_bytes, swap_codec, source_env, target_env, exists,
  exists-Settled, source_chosen, target_chosen, first_there, source_captured, target_deployed,
}
use fos_next.Tests.Served.{kept-uploads, target-Serves}

swap_codec-ReadsSwap : ReadsSwap swap_codec swap_codec
swap_codec-ReadsSwap uuid t = refl

swap_codec-Braced : Braced swap_codec
unfolding starts_with_brace
swap_codec-Braced m = refl

source-TextUuid : TextUuid source_env (partition_device disk_path (1 + 0))
unfolding equal trim_space trim_left trim_right
source-TextUuid h = (omega arith, (omega arith, (omega arith, (omega arith, tt))))

source-Unbraced : Unbraced source_env (partition_device disk_path (1 + 0))
unfolding starts_with_brace
source-Unbraced h fs = refl

all_there : (n : ℕ) → 1 ≤ n → n ≤ 1 + 0 → exists n ≡ true
all_there n lo hi = let one : n ≡ 1 = omega arith in rw one first_there

first_kept :
    kept demo_client demo_resp.image_id 1 (capture_steps source_env demo_client demo_resp []).1
    ≡ some image_bytes
unfolding equal itoa digits
first_kept = kept-uploads 1

source_told : claims (capture source_env demo_client demo_resp []).1 ≡ 1
unfolding capture report send_complete capture_steps capture_parts capture_part upload_image
    refuse_bitlocker note_fixed Imaging.is_bitlocker_encrypted Imaging.has_bitlocker_id failing
    detect_filesystem clone partclone partclone_bin poll_rounds read_status use_fields last_line
    backup backup_gpt detect_table_type upload_part upload_request upload_response set_image_meta
    discover_partitions discover_from primary list read_lines read_line add_disk parse_size
    multiplier with_unit some_disks sort insert first_path partition_device is_digit? pure fail
    attempt lift ask branch match_result match_option ◌>>=◌ deferred sys send exec_with
    combined_output checked output try wrapped expect equal fields split trim_space last is_digit
    itoa parse_int base trim_left trim_right is_space words push_word split_on digits signed
    unsigned scan_uint strip_slashes last_element to_lower lower after_last Base64.encode post
    post_loop do_post post_response post_request
source_told = refl

target_told : claims (deploy target_env demo_client demo_resp []).1 ≡ 1
unfolding deploy report send_complete deploy_steps deploy_part deploy_parts attempt_loop try_part
    restore_image after_restore is_fixed read_all starts_with_brace deploy_table grow_last failing
    restore restore_gpt decode64 Base64.decode Imaging.restore partclone wait_error poll_rounds
    read_status use_fields last_line detect_filesystem restore_sgdisk_raw reread_table primary list
    read_lines read_line add_disk parse_size multiplier with_unit some_disks sort insert first_path
    partition_device is_digit? download_part download_request download_response pure fail attempt
    lift ask branch match_result match_option ◌>>=◌ deferred sys send exec_with combined_output
    checked output try wrapped expect equal fields split trim_space last is_digit itoa parse_int
    base trim_left trim_right is_space words push_word split_on digits signed unsigned scan_uint
    strip_slashes last_element to_lower lower after_last Base64.decode_groups Base64.drop_line_ends
    post post_loop do_post post_response post_request
target_told = refl

deploy-capture_example :
    TableTransferred source_env target_env disk_path disk_path [] []
      (deploy target_env demo_client demo_resp []).1
    × Transferred source_env target_env
        (partition_device disk_path (1 + 0))
        (partition_device disk_path (1 + 0))
        []
        (capture source_env demo_client demo_resp []).1
        []
        (deploy target_env demo_client demo_resp []).1
deploy-capture_example =
    deploy-capture source_env target_env demo_client demo_client demo_resp demo_resp [] [] disk_path
      disk_path exists (λ e. cc (e, source_told)) source_chosen exists-Settled
      (λ h part b body q.
        target-Serves h part b body
          (sym (kept-capture source_env demo_client demo_resp [] part) ∙ q))
      (λ h. refl) (λ e. cc (e, target_told)) target_chosen swap_codec-ReadsSwap swap_codec-Braced 0
      (omega arith) all_there (omega arith) source-TextUuid source-Unbraced

capture_steps-Uploaded_example :
    Uploaded source_env demo_client demo_resp
      (1 + count exists 1 0)
      (partition_device disk_path (1 + 0))
      []
      (capture_steps source_env demo_client demo_resp []).1
capture_steps-Uploaded_example =
    capture_steps-Uploaded source_env demo_client demo_resp [] disk_path exists source_captured
      source_chosen exists-Settled 0 (omega arith) first_there

resizable_captured : (capture_steps source_env demo_client resizable_resp []).0 ≡ ok tt
unfolding Imaging.clean_ntfs Imaging.can_shrink Imaging.shrink prepare not_shrunk capture_steps
    capture_parts capture_part upload_image refuse_bitlocker note_fixed
    Imaging.is_bitlocker_encrypted Imaging.has_bitlocker_id failing detect_filesystem clone
    partclone partclone_bin poll_rounds read_status use_fields last_line backup backup_gpt
    detect_table_type upload_part upload_request upload_response set_image_meta discover_partitions
    discover_from primary list read_lines read_line add_disk parse_size multiplier with_unit
    some_disks sort insert first_path partition_device is_digit? pure fail attempt lift ask branch
    match_result match_option ◌>>=◌ deferred sys send exec_with combined_output checked output try
    wrapped expect equal fields split trim_space last is_digit itoa parse_int base trim_left
    trim_right is_space words push_word split_on digits signed unsigned scan_uint strip_slashes
    last_element to_lower lower after_last Base64.encode post post_loop do_post post_response
    post_request
resizable_captured = refl

capture_steps-Described_example :
    Described source_env demo_client resizable_resp
      (1 + count exists 1 0)
      (count exists 1 128)
      (partition_device disk_path (1 + 0))
      []
      (capture_steps source_env demo_client resizable_resp []).1
capture_steps-Described_example =
    capture_steps-Described source_env demo_client resizable_resp [] disk_path exists
      resizable_captured source_chosen exists-Settled 0 (omega arith) first_there

capture_steps-Guarded_example : Guarded source_env (partition_device disk_path (1 + 0)) []
capture_steps-Guarded_example =
    capture_steps-Guarded source_env demo_client demo_resp [] disk_path exists source_captured
      source_chosen exists-Settled 0 (omega arith) first_there

deploy_steps-Restored_example :
    Restored target_env
      (partition_device disk_path 1)
      image_bytes
      []
      (deploy_steps target_env demo_client demo_resp []).1
deploy_steps-Restored_example =
    deploy_steps-Restored target_env demo_client demo_resp
      (λ k.
        kept demo_client demo_resp.image_id k (capture_steps source_env demo_client demo_resp []).1)
      target-Serves (λ h. refl) [] disk_path target_deployed target_chosen 1 (omega arith)
      (omega arith) image_bytes first_kept
