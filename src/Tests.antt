-- ===== src/Tests.antt =====
-- A world to run the agent of agent/ in: each command succeeds, lsblk lists one disk, and the server
-- answers each request with the body `{}`. Its JSON writes each byte of a field as its successor and
-- ends each field with a zero.
mod Agent
mod Server
mod Tables
mod Start
mod Logs
mod Display
mod Session
mod Numbers
mod Facts
mod Machines
mod Served
mod RoundTrip
use fos_next.Prelude.{
  ℕ, zero, suc, ◌+◌, ◌<◌, pos, true, List, [], ◌∷◌, ◌++◌, Option, none, some, Bytes, codes,
  if◌then◌else◌, Result, ok, err, ◌≡◌, refl, ap, map,
}
use fos_next.Strings.{equal}
use fos_next.Wire.{HandshakeResponse, HandshakeRequest, TableBlob, PartMeta, Codec}
use fos_next.World.{Command, Syscall, exec, Reply, Request, Response, replied, History, Env}
use fos_next.Api
use fos_next.Api.{Client}
use fos_next.Partition.RoundTrip.{ReadsBack}

abbrev pub with_field : ℕ → Bytes × Bytes → Bytes × Bytes
with_field c (s, rest) = (c ∷ s, rest)

abbrev pub put_field : Bytes → Bytes → Bytes
put_field [] rest = 0 ∷ rest
put_field (c ∷ s) rest = suc c ∷ put_field s rest

abbrev pub get_field : Bytes → Bytes × Bytes
get_field [] = ([], [])
get_field (zero ∷ s) = ([], s)
get_field (suc c ∷ s) = with_field c (get_field s)

abbrev pub write_table : TableBlob → Bytes
write_table tb =
    1 ∷ put_field tb.type (put_field tb.sgdisk (put_field tb.sfdisk (put_field tb.mbr_raw [])))

abbrev pub read_table : Bytes → Result TableBlob
read_table (suc zero ∷ s) =
    let (type, s1) = get_field s in
    let (sgdisk, s2) = get_field s1 in
    let (sfdisk, s3) = get_field s2 in
    let (mbr_raw, s4) = get_field s3 in
    ok (record { type = type; sgdisk = sgdisk; sfdisk = sfdisk; mbr_raw = mbr_raw })
read_table _ = err (codes "invalid character")

get_field-put_field : (s rest : Bytes) → get_field (put_field s rest) ≡ (s, rest)
get_field-put_field [] rest = refl
get_field-put_field (c ∷ s) rest = ap (with_field c) (get_field-put_field s rest)

-- the response of the server to the handshake
abbrev pub demo_resp : HandshakeResponse
demo_resp = record {
  boot_token = codes "secret";
  task_id = codes "7";
  action = codes "deploy";
  image_id = codes "3";
  part_count = pos 1;
  total_bytes = pos 0;
  storage_node_url = [];
  image_type = codes "fixed";
  fixed_size_partitions = [];
}

abbrev pub demo_codec : Codec
demo_codec = record {
  marshal_table = write_table;
  unmarshal_table = read_table;
  marshal_meta = λ m. b'{' ∷ m.uuid;
  unmarshal_meta = λ s. record { type = codes "swap"; uuid = [] };
  decode_handshake = λ s. ok demo_resp;
}

pub demo_codec-ReadsBack : ReadsBack demo_codec
demo_codec-ReadsBack tb h1 h2 h3 h4 = rw (
  get_field-put_field tb.type,
  get_field-put_field tb.sgdisk,
  get_field-put_field tb.sfdisk,
  get_field-put_field tb.mbr_raw,
)

abbrev pub demo_answer : Syscall → Reply
demo_answer (exec c) = record {
  out = if equal c.name (codes "lsblk") then codes "/dev/sda disk 100" else [];
  fault = none;
}
demo_answer _ = record { out = []; fault = none }

abbrev pub demo_env : Env
demo_env = record {
  answer = λ h c. demo_answer c;
  respond = λ h r. replied 200 (codes "200 OK") (record { out = codes "{}"; fault = none });
  cancelled = λ h. none;
  ticks = λ h. 0;
  drained = λ h. true;
  entries = λ h. [];
  addresses = λ h name. [];
  scaled = λ s k. none;
  codec = demo_codec;
}

abbrev pub demo_client : Client
demo_client = record { base = codes "http://fog/api/v1/boot"; token = codes "secret" }
