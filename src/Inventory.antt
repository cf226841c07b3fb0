-- ===== src/Inventory.antt =====
-- agent/internal/inventory/inventory.go: hardware facts from procfs and sysfs.
pub mod Calls
pub mod Cpu
use fos_next.Prelude.{
  ℕ, ◌+◌, ℤ, pos, mul_int64, Bool, true, false, List, [], ◌∷◌, ◌++◌, Bytes, codes, if◌then◌else◌,
  Result, ok, err, map,
}
use fos_next.Strings.{equal, trim_space, cut, split, fields, has_prefix}
use fos_next.Strconv.{parse_int}
use fos_next.World.{read_file, Env, Act, pure, fail, attempt, match_result, ◌>>=◌, try, wrapped}
use fos_next.Netup.{Nic, list_nics}

-- `cpuInfo`
pub record CpuInfo : Type 0 where
  pub model : Bytes
  pub cores : ℕ

-- `Info`
pub record Info : Type 0 where
  pub cpu_model : Bytes
  pub cpu_cores : ℕ
  pub ram_bytes : ℤ
  pub disk_bytes : ℤ
  pub macs : List Bytes
  pub uuid : Bytes

unfoldable pub first_model : Bytes → Bytes → Bytes
first_model [] v = v
first_model (c ∷ m) v = c ∷ m

-- the `switch k` of the loop over /proc/cpuinfo
unfoldable pub scan_cpu_line : CpuInfo → Bytes → Bytes → CpuInfo
scan_cpu_line info k v =
    if equal k (codes "model name")
    then record info { model = first_model info.model v }
    else if equal k (codes "processor")
    then record info { cores = info.cores + 1 }
    else info

unfoldable pub scan_cpu : List Bytes → CpuInfo → CpuInfo
scan_cpu [] info = info
scan_cpu (line ∷ lines) info =
    let (k, v, _) = cut line b':' in
    scan_cpu lines (scan_cpu_line info (trim_space k) (trim_space v))

-- `readCPU`; the scanner's limit on the length of a line is not modelled
unfoldable pub read_cpu : Env → Act CpuInfo
read_cpu env = do
  text ← try env (read_file (codes "/proc/cpuinfo"))
  pure (scan_cpu (split text b'\n') (record { model = []; cores = 0 }))

unfoldable pub ram_of : Bytes → ℤ × Bool → Result ℤ
ram_of field (kib, true) = ok (mul_int64 kib 1024)
ram_of field (kib, false) = err (codes "strconv.ParseInt: parsing " ++ field)

-- the fields of the `MemTotal:` line; one with no value ends the search
unfoldable pub ram_field : List Bytes → Result ℤ
ram_field (label ∷ value ∷ more) = ram_of value (parse_int value)
ram_field _ = err (codes "MemTotal not found in /proc/meminfo")

unfoldable pub scan_ram : List Bytes → Result ℤ
scan_ram [] = err (codes "MemTotal not found in /proc/meminfo")
scan_ram (line ∷ lines) =
    let rest = scan_ram lines in
    if has_prefix line (codes "MemTotal:") then ram_field (fields line) else rest

-- `readRAM`
unfoldable pub read_ram : Env → Act ℤ
read_ram env = do
  text ← try env (read_file (codes "/proc/meminfo"))
  match_result (scan_ram (split text b'\n')) pure fail

unfoldable pub disk_of : ℤ × Bool → ℤ
disk_of (sectors, true) = mul_int64 sectors 512
disk_of (sectors, false) = pos 0

-- `readDisk`, with 0 in place of each error, as its caller has it
unfoldable pub read_disk : Env → Act ℤ
read_disk env = do
  first ← attempt (try env (read_file (codes "/sys/block/sda/size")))
  match_result first (λ text. pure (disk_of (parse_int (trim_space text))))
      (λ _. do
        second ← attempt (try env (read_file (codes "/sys/block/nvme0n1/size")))
        match_result second (λ text. pure (disk_of (parse_int (trim_space text))))
            (λ _. pure (pos 0)))

-- `readUUID`, over the paths that are left
unfoldable pub read_uuid : Env → List Bytes → Act Bytes
read_uuid env [] = pure []
read_uuid env (path ∷ paths) = do
  r ← attempt (try env (read_file path))
  match_result r (λ text. pure (trim_space text)) (λ _. read_uuid env paths)

unfoldable pub macs_of : Result (List Nic) → List Bytes
macs_of (ok nics) = map (λ n. Nic.mac n) nics
macs_of (err e) = []

-- `Collect`; an error stands for the nil pointer that comes with it
unfoldable pub collect : Env → Act Info
collect env = do
  cpu ← wrapped (codes "cpu: ") (read_cpu env)
  ram ← wrapped (codes "ram: ") (read_ram env)
  disk ← read_disk env
  nics ← attempt (list_nics env)
  uuid ← read_uuid env (codes "/sys/class/dmi/id/product_uuid" ∷ codes "/etc/machine-id" ∷ [])
  pure (record {
    cpu_model = cpu.model;
    cpu_cores = cpu.cores;
    ram_bytes = ram;
    disk_bytes = disk;
    macs = macs_of nics;
    uuid = uuid;
  })
