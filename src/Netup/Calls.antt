-- ===== src/Netup/Calls.antt =====
-- The network component makes calls of the system only.
use fos_next.Prelude.{List, [], ◌∷◌, Bytes}
use fos_next.World.{Syscall, Event, call, Env}
use fos_next.World.Adds.{Adds, Adds-bind, Adds-branch, adds_rules}
use fos_next.Netup.{read_nics, list_nics}

module _ {Q : Event → Type 0} (env : Env) (local : (c : Syscall) → Q (call c)) where
  read_nics-Adds : (names : List Bytes) → Adds Q (read_nics env names)
  unfolding read_nics
  read_nics-Adds [] = search adds_rules
  read_nics-Adds (name ∷ names) =
      let rest = read_nics-Adds names in
      Adds-branch _ _ _ rest (
        Adds-bind _ _ (search (adds_rules, local))
          (λ r. Adds-bind _ _ rest (λ more. search adds_rules)))

  pub list_nics-Adds : Adds Q (list_nics env)
  unfolding list_nics
  list_nics-Adds = search (adds_rules, read_nics-Adds, local)
