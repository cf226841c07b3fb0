-- ===== src/Inventory/Calls.antt =====
-- The inventory makes calls of the system only.
use fos_next.Prelude.{List, [], ◌∷◌, Bytes}
use fos_next.World.{Syscall, Event, call, Env}
use fos_next.World.Adds.{Adds, Adds-bind, Adds-result, adds_rules}
use fos_next.Netup.Calls.{list_nics-Adds}
use fos_next.Inventory.{read_cpu, read_ram, read_disk, read_uuid, collect}

module _ {Q : Event → Type 0} (env : Env) (local : (c : Syscall) → Q (call c)) where
  read_uuid-Adds : (paths : List Bytes) → Adds Q (read_uuid env paths)
  unfolding read_uuid
  read_uuid-Adds [] = search adds_rules
  read_uuid-Adds (path ∷ paths) =
      Adds-bind _ _ (search (adds_rules, local))
        (λ r. Adds-result r _ _ (λ _. search adds_rules) (λ _. read_uuid-Adds paths))

  read_disk-Adds : Adds Q (read_disk env)
  unfolding read_disk
  read_disk-Adds = search (adds_rules, local) depth 9

  read_ram-Adds : Adds Q (read_ram env)
  unfolding read_ram
  read_ram-Adds = search (adds_rules, local)

  read_cpu-Adds : Adds Q (read_cpu env)
  unfolding read_cpu
  read_cpu-Adds = search (adds_rules, local)

  pub collect-Adds : Adds Q (collect env)
  unfolding collect
  collect-Adds =
      search
        (
          adds_rules, read_cpu-Adds, read_ram-Adds, read_disk-Adds, list_nics-Adds, read_uuid-Adds,
          local,
        )
        depth 10
