-- ===== src/Disk.antt =====
-- agent/internal/disk/disk.go: the disks that lsblk lists, the choice of one, and partition paths.
pub mod Calls
pub mod Largest
pub mod Numbers
use fos_next.Prelude.{
  ℕ, zero, suc, ◌+◌, ◌-◌, ◌^◌, ◌*◌, ℤ, pos, negsuc, eq_ℤ, mul_int64, Bool, true, false, not, ◌&&◌,
  ◌||◌, List, [], ◌∷◌, ◌++◌, Option, none, some, Bytes, codes, ltb, ◌==◌, if◌then◌else◌, Result,
}
use fos_next.Strings.{equal, bytes_less, fields, split, trim_space, last, is_digit}
use fos_next.Strconv.{itoa, parse_int, base}
use fos_next.World.{
  Syscall, stat, read_file, Reply, Env, Act, pure, fail, attempt, branch, match_result,
  match_option, ◌>>=◌, ◌>>◌, sys, output, try, wrapped,
}

-- `Disk`
pub record Disk : Type 0 where
  pub path : Bytes
  pub bytes : ℤ

-- the entry of `multipliers` for a byte
unfoldable pub multiplier : ℕ → Option ℕ
multiplier c =
    if c == b'K'
    then some (2 ^ 10)
    else if c == b'M'
    then some (2 ^ 20)
    else if c == b'G'
    then some (2 ^ 30)
    else if c == b'T'
    then some (2 ^ 40)
    else if c == b'P'
    then some (2 ^ 50)
    else none

-- the text without its last byte
unfoldable pub init : Bytes → Bytes
init [] = []
init (c ∷ []) = []
init (c ∷ d ∷ s) = c ∷ init (d ∷ s)

or_zero : Option ℤ → ℤ
or_zero none = pos 0
or_zero (some v) = v

unfoldable pub with_unit : Env → Bytes → Option ℕ → ℤ
unfolding or_zero
with_unit env s (some mult) = or_zero (env.scaled (init s) mult)
with_unit env s none = (parse_int s).0

sized : Env → Bytes → Option ℕ → ℤ
unfolding with_unit
sized env s none = pos 0
sized env s (some c) = with_unit env s (multiplier c)

-- The value of `parseSize`; its error is ignored by the caller.
unfoldable pub parse_size : Env → Bytes → ℤ
unfolding sized
parse_size env text =
    let s = trim_space text in if equal s (codes "-") then pos 0 else sized env s (last s)

-- one line of lsblk: a disk, unless the loop skips it
unfoldable pub read_line : Env → List Bytes → Option Disk
read_line env (name ∷ dev_type ∷ size ∷ more) =
    if not (equal dev_type (codes "disk"))
    then none
    else if eq_ℤ (parse_size env size) (pos 0)
    then none
    else some (record { path = name; bytes = parse_size env size })
read_line env _ = none

unfoldable pub add_disk : Option Disk → List Disk → List Disk
add_disk none ds = ds
add_disk (some d) ds = d ∷ ds

unfoldable pub read_lines : Env → List Bytes → List Disk
read_lines env [] = []
read_lines env (line ∷ lines) = add_disk (read_line env (fields line)) (read_lines env lines)

unfoldable pub some_disks : List Disk → Act (List Disk)
some_disks [] = fail (codes "no physical disks found")
some_disks (d ∷ ds) = pure (d ∷ ds)

-- `List`
unfoldable pub list : Env → Act (List Disk)
list env = do
  out ←
      wrapped (codes "lsblk: ")
        (output env (codes "lsblk") (codes "-dpno" ∷ codes "NAME,TYPE,SIZE" ∷ []))
  some_disks (read_lines env (split (trim_space out) b'\n'))

-- `<` on int64
unfoldable pub less_ℤ : ℤ → ℤ → Bool
less_ℤ (pos a) (pos b) = ltb a b
less_ℤ (pos a) (negsuc b) = false
less_ℤ (negsuc a) (pos b) = true
less_ℤ (negsuc a) (negsuc b) = ltb b a

-- the comparison that `Primary` sorts by
unfoldable pub before : Disk → Disk → Bool
before a b = if not (eq_ℤ a.bytes b.bytes) then less_ℤ b.bytes a.bytes else bytes_less a.path b.path

unfoldable pub insert : Disk → List Disk → List Disk
insert d [] = d ∷ []
insert d (e ∷ es) = let rest = insert d es in if before e d then e ∷ rest else d ∷ e ∷ es

-- `sort.Slice`, as an insertion sort. Disks that the comparison does not tell apart have the same
-- path, so every sort leaves the same path in front.
unfoldable pub sort : List Disk → List Disk
sort [] = []
sort (d ∷ ds) = insert d (sort ds)

-- `disks[0].Path`; an index out of range panics
unfoldable pub first_path : List Disk → Act Bytes
first_path [] = fail (codes "index out of range")
first_path (d ∷ ds) = pure d.path

-- `Primary`
unfoldable pub primary : Env → Act Bytes
primary env = do disks ← list env; first_path (sort disks)

unfoldable pub is_digit? : Option ℕ → Bool
is_digit? none = false
is_digit? (some c) = is_digit c

-- `PartitionDevice`
unfoldable pub partition_device : Bytes → ℕ → Bytes
partition_device disk n =
    if is_digit? (last (base disk)) then disk ++ (b'p' ∷ itoa n) else disk ++ itoa n

-- the loop of `DiscoverPartitions` from number `i` on, for `left` numbers
unfoldable pub discover_from : Env → Bytes → ℕ → ℕ → Act (List Bytes)
discover_from env disk zero i = pure []
discover_from env disk (suc left) i = do
  r ← sys env (stat (partition_device disk i))
  rest ← discover_from env disk left (i + 1)
  match_option r.fault (λ _. pure rest) (pure (partition_device disk i ∷ rest))

-- `DiscoverPartitions`, up to `maxParts`
unfoldable pub discover_partitions : Env → Bytes → Act (List Bytes)
discover_partitions env disk = discover_from env disk 128 1

-- `SysfsSize`
unfoldable pub sysfs_size : Env → Bytes → Act ℤ
sysfs_size env disk = do
  r ← attempt (try env (read_file (codes "/sys/block/" ++ base disk ++ codes "/size")))
  match_result r (λ text. pure (mul_int64 (parse_int (trim_space text)).0 512)) (λ _. pure (pos 0))
