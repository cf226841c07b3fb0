-- ===== src/Tests/Served.antt =====
-- The server between the two machines has what `Capture` of agent/internal/actions uploaded.
use fos_next.Prelude.{
  ℕ, [], Option, none, some, Bytes, codes, if◌then◌else◌, ok, ◌≡◌, refl, sym, ap, ◌∙◌, inl, inr,
  Bool-cases,
}
use fos_next.Strings.{
  equal, fields, split, trim_space, trim_left, trim_right, is_space, words, push_word, split_on,
  last, is_digit, after_last, to_lower, lower,
}
use fos_next.Strings.Equal.{equal-eq}
use fos_next.Strconv.{
  itoa, digits, base, strip_slashes, last_element, parse_int, signed, unsigned, scan_uint,
}
use fos_next.Base64
use fos_next.World.{
  Reply, pure, fail, attempt, lift, ask, branch, match_result, match_option, ◌>>=◌, deferred, sys,
  send, exec_with, combined_output, checked, output, try, wrapped, expect,
}
use fos_next.Api.{
  post, post_loop, do_post, post_response, post_request, upload_part, upload_request,
  upload_response, set_image_meta, download_request, download_response,
}
use fos_next.Disk.{
  primary, list, read_lines, read_line, add_disk, parse_size, multiplier, with_unit, some_disks,
  sort, insert, first_path, partition_device, is_digit?, discover_from, discover_partitions,
}
use fos_next.Partition.{backup, backup_gpt, detect_table_type}
use fos_next.Imaging.{clone, partclone, partclone_bin}
use fos_next.Imaging.Status.{poll_rounds, read_status, use_fields, last_line}
use fos_next.Actions.Parts.{failing, detect_filesystem}
use fos_next.Actions.Capture.{
  capture_steps, capture_parts, capture_part, upload_image, refuse_bitlocker, note_fixed,
}
use fos_next.Actions.Capture.Kept.{kept}
use fos_next.Actions.Deploy.Contents.{Serves}
use fos_next.Tests.{demo_client, demo_resp}
use fos_next.Imaging.{wait_error}
use fos_next.Imaging
use fos_next.Base64
use fos_next.Tests.Machines.{image_bytes, table_bytes, source_env, download_url, serve, target_env}

-- what the server has of each part
abbrev pub uploads : Bytes → Option Bytes
uploads part =
    if equal (codes "1") part
    then some image_bytes
    else if equal (codes "0") part
    then some table_bytes
    else none

pub kept-uploads :
    (part : ℕ)
    → kept demo_client demo_resp.image_id part (capture_steps source_env demo_client demo_resp []).1
      ≡ uploads (itoa part)
unfolding capture_steps capture_parts capture_part upload_image refuse_bitlocker note_fixed
    Imaging.is_bitlocker_encrypted Imaging.has_bitlocker_id failing detect_filesystem clone
    partclone partclone_bin poll_rounds read_status use_fields last_line backup backup_gpt
    detect_table_type upload_part upload_request upload_response set_image_meta discover_partitions
    discover_from primary list read_lines read_line add_disk parse_size multiplier with_unit
    some_disks sort insert first_path partition_device is_digit? pure fail attempt lift ask branch
    match_result match_option ◌>>=◌ deferred sys send exec_with combined_output checked output try
    wrapped expect equal fields split trim_space last is_digit itoa parse_int base trim_left
    trim_right is_space words push_word split_on digits signed unsigned scan_uint strip_slashes
    last_element to_lower lower after_last Base64.encode post post_loop do_post post_response
    post_request
kept-uploads part = refl

-- an answer of the server is what was accepted, and has the bytes that are kept
pub reply_same :
    (kept_bytes b : Bytes) (body : Reply)
    → some kept_bytes ≡ some b
    → ok (record { out = kept_bytes; fault = none }) ≡ ok body
    → body ≡ record { out = b; fault = none }
reply_same kept_bytes b body kept e = cc

pub text_served :
    (b text : Bytes) (n : ℕ) (body : Reply)
    → uploads text ≡ some b
    → download_response n (serve (download_url text)) ≡ ok body
    → body ≡ record { out = b; fault = none }
unfolding download_response equal
text_served b text n body kept e = elim (Bool-cases (equal (codes "1") text)) [
  | inl y ↦
      let one : text ≡ codes "1" = sym (equal-eq _ _ y) in
      reply_same image_bytes b body (rw one at kept) (rw one at e)
  | inr o ↦ elim (Bool-cases (equal (codes "0") text)) [
    | inl z ↦
        let nought : text ≡ codes "0" = sym (equal-eq _ _ z) in
        reply_same table_bytes b body (rw nought at kept) (rw nought at e)
    | inr m ↦ absurd (cc (rw (o, m) at kept))
  ]
]

pub target-Serves : Serves target_env demo_client demo_resp.image_id (λ k.
    kept demo_client demo_resp.image_id k (capture_steps source_env demo_client demo_resp []).1)
unfolding download_request equal
target-Serves h part b body stored e whole =
    ap (λ r. Reply.out r) (text_served b (itoa part) part body (sym (kept-uploads part) ∙ stored) e)
