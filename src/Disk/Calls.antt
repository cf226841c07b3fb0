-- ===== src/Disk/Calls.antt =====
-- The disk component makes calls of the system and no requests.
use fos_next.Prelude.{ℕ, zero, suc, ◌+◌, Bytes, List, [], ◌∷◌}
use fos_next.World.{Syscall, Event, call, Env}
use fos_next.World.Adds.{Adds, Adds-bind, adds_rules}
use fos_next.Disk.{Disk, list, some_disks, first_path, primary, discover_from, discover_partitions}

module _ {Q : Event → Type 0} (env : Env) (local : (c : Syscall) → Q (call c)) where
  some_disks-Adds : (ds : List Disk) → Adds Q (some_disks ds)
  unfolding some_disks
  some_disks-Adds [] = search adds_rules
  some_disks-Adds (d ∷ ds) = search adds_rules

  first_path-Adds : (ds : List Disk) → Adds Q (first_path ds)
  unfolding first_path
  first_path-Adds [] = search adds_rules
  first_path-Adds (d ∷ ds) = search adds_rules

  list-Adds : Adds Q (list env)
  unfolding list
  list-Adds = search (adds_rules, some_disks-Adds)

  pub primary-Adds : Adds Q (primary env)
  unfolding primary
  primary-Adds = search (adds_rules, list-Adds, first_path-Adds)

  discover_from-Adds : (disk : Bytes) (left i : ℕ) → Adds Q (discover_from env disk left i)
  unfolding discover_from
  discover_from-Adds disk zero i = search adds_rules
  discover_from-Adds disk (suc left) i =
      Adds-bind _ _ (search adds_rules)
        (λ r. Adds-bind _ _ (discover_from-Adds disk left (i + 1)) (λ rest. search adds_rules))

  pub discover_partitions-Adds : (disk : Bytes) → Adds Q (discover_partitions env disk)
  unfolding discover_partitions
  discover_partitions-Adds disk = discover_from-Adds disk 128 1
