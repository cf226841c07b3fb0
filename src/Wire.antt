-- ===== src/Wire.antt =====
-- What the agent and the server exchange: the request and response types of
-- agent/internal/api/client.go and loghandler.go, the partition table blob of
-- agent/internal/partition/partition.go and the swap sentinel of agent/internal/actions/sys.go.
-- `encoding/json` is a parameter, the record `Codec`.
use fos_next.Prelude.{ℕ, ℤ, Bool, List, Bytes, Result, codes}

pub record HandshakeRequest : Type 0 where
  pub macs : List Bytes

pub record HandshakeResponse : Type 0 where
  pub boot_token : Bytes
  pub task_id : Bytes
  pub action : Bytes
  pub image_id : Bytes
  pub part_count : ℤ
  pub total_bytes : ℤ
  pub storage_node_url : Bytes
  pub image_type : Bytes
  pub fixed_size_partitions : List ℤ

pub record RegisterRequest : Type 0 where
  pub macs : List Bytes
  pub cpu_model : Bytes
  pub cpu_cores : ℕ
  pub ram_bytes : ℤ
  pub disk_bytes : ℤ
  pub uuid : Bytes

pub record ProgressRequest : Type 0 where
  pub task_id : Bytes
  pub percent : ℤ
  pub bits_per_minute : ℤ
  pub bytes_transferred : ℤ

pub record CompleteRequest : Type 0 where
  pub task_id : Bytes
  pub success : Bool
  pub message : Bytes

pub record ImageMetaRequest : Type 0 where
  pub task_id : Bytes
  pub image_id : Bytes
  pub image_type : Bytes
  pub fixed_size_partitions : List ℕ
  pub part_count : ℕ

-- `LogEntry`; the attributes are opaque text here
pub record LogEntry : Type 0 where
  pub time : Bytes
  pub level : Bytes
  pub msg : Bytes
  pub attrs : List (Bytes × Bytes)

pub record SendLogsRequest : Type 0 where
  pub task_id : Bytes
  pub entries : List LogEntry

-- The values that the agent marshals into a request body.
pub data Payload : Type 0 where
  handshake : HandshakeRequest → Payload
  register : RegisterRequest → Payload
  progress : ProgressRequest → Payload
  complete : CompleteRequest → Payload
  image_meta : ImageMetaRequest → Payload
  logs : SendLogsRequest → Payload

-- `TableType`, a string, and its two constants
abbrev pub TableType : Type 0
TableType = Bytes

abbrev pub table_mbr : TableType
table_mbr = codes "mbr"

abbrev pub table_gpt : TableType
table_gpt = codes "gpt"

-- `tableBlob`
pub record TableBlob : Type 0 where
  pub type : TableType
  pub sgdisk : Bytes
  pub sfdisk : Bytes
  pub mbr_raw : Bytes

-- `partMeta`
pub record PartMeta : Type 0 where
  pub type : Bytes
  pub uuid : Bytes

-- `json.Marshal` and `json.Unmarshal` at the types that go through them as bytes. Of a sentinel the
-- agent ignores the error, so `unmarshal_meta` gives what is left in the zero value.
pub record Codec : Type 0 where
  pub marshal_table : TableBlob → Bytes
  pub unmarshal_table : Bytes → Result TableBlob
  pub marshal_meta : PartMeta → Bytes
  pub unmarshal_meta : Bytes → PartMeta
  pub decode_handshake : Bytes → Result HandshakeResponse
