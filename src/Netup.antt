-- ===== src/Netup.antt =====
-- agent/internal/netup/netup.go: the network interfaces and their way up. The goroutines that run
-- udhcpc are run for their start only.
pub mod Calls
pub mod Address
use fos_next.Prelude.{
  ℕ, zero, suc, Bool, not, ◌&&◌, ◌==◌, true, false, List, [], ◌∷◌, ◌++◌, Option, none, some, Bytes,
  codes, if◌then◌else◌,
}
use fos_next.Strings.{equal, trim_space}
use fos_next.World.{
  start, Ip, v4, v6, read_dir, read_file, sleep, Env, Act, pure, fail, attempt, branch, ask,
  match_result, match_option, ◌>>=◌, ◌>>◌, sys, combined_output, try, wrapped,
}

-- `NIC`
pub record Nic : Type 0 where
  pub name : Bytes
  pub mac : Bytes

-- the loop of `ListNICs` over the directory's entries
unfoldable pub read_nics : Env → List Bytes → Act (List Nic)
read_nics env [] = pure []
read_nics env (name ∷ names) = branch (equal name (codes "lo")) (read_nics env names) (do
  r ← attempt (try env (read_file (codes "/sys/class/net/" ++ name ++ codes "/address")))
  rest ← read_nics env names
  match_result r (λ text. pure (record { name = name; mac = trim_space text } ∷ rest))
      (λ _. pure rest))

-- `ListNICs`
unfoldable pub list_nics : Env → Act (List Nic)
list_nics env = do
  wrapped (codes "read /sys/class/net: ") (try env (read_dir (codes "/sys/class/net")))
  names ← ask env.entries
  read_nics env names

-- `To4() != nil && !IsLoopback() && !IsLinkLocalUnicast()`
unfoldable pub is_usable : Ip → Bool
is_usable (v4 a b c d) = not (a == 127) && not (a == 169 && b == 254)
is_usable (v6 s) = false

unfoldable pub any_usable : List Ip → Bool
any_usable [] = false
any_usable (ip ∷ ips) = if is_usable ip then true else any_usable ips

-- `firstAddressedMAC`, with the addresses of each interface
unfoldable pub first_addressed_mac : (Bytes → List Ip) → List Nic → Option Bytes
first_addressed_mac addrs [] = none
first_addressed_mac addrs (nic ∷ nics) =
    if any_usable (addrs nic.name) then some nic.mac else first_addressed_mac addrs nics

-- `linkUp`; an error is only logged
unfoldable pub link_up : Env → Bytes → Act (Unit {0})
link_up env iface = do
  combined_output env (codes "ip") (codes "link" ∷ codes "set" ∷ iface ∷ codes "up" ∷ [])
  pure tt

-- the first loop of `BringUp`
unfoldable pub link_up_all : Env → List Nic → Act (Unit {0})
link_up_all env [] = pure tt
link_up_all env (nic ∷ nics) = do link_up env nic.name; link_up_all env nics

-- the start of `runUDHCPC`; an error of its end is only logged
unfoldable pub run_udhcpc : Env → Bytes → Act (Unit {0})
run_udhcpc env iface = do
  sys env (
      start (record {
        name = codes "udhcpc";
        args = codes "-i" ∷ iface ∷ codes "-f" ∷ codes "-t" ∷ codes "3" ∷ [];
        stdin = [];
      }))
  pure tt

-- the second loop of `BringUp`
unfoldable pub start_dhcp_all : Env → List Nic → Act (Unit {0})
start_dhcp_all env [] = pure tt
start_dhcp_all env (nic ∷ nics) = do run_udhcpc env nic.name; start_dhcp_all env nics

-- The polling loop of `BringUp`. A round takes half a second, and the fuel of 360 rounds is the
-- deadline of three minutes that `main` gives the context.
unfoldable pub await_address : Env → List Nic → ℕ → Act Bytes
await_address env nics zero = fail (codes "context deadline exceeded")
await_address env nics (suc rounds) = do
  done ← ask env.cancelled
  match_option done fail (do
    sys env (sleep 500)
    found ← ask (λ h. first_addressed_mac (env.addresses h) nics)
    match_option found pure (pure tt >> await_address env nics rounds))

unfoldable pub is_empty : List Nic → Bool
is_empty [] = true
is_empty (nic ∷ nics) = false

-- `BringUp`
unfoldable pub bring_up : Env → Act Bytes
bring_up env = do
  nics ← list_nics env
  branch (is_empty nics) (fail (codes "no non-loopback NICs found"))
      (do link_up_all env nics; start_dhcp_all env nics; await_address env nics 360)
