-- ===== src/Netup/Address.antt =====
-- The address that `BringUp` of agent/internal/netup/netup.go waits for.
use fos_next.Prelude.{
  ℕ, zero, suc, true, false, List, [], ◌∷◌, some, Bytes, codes, ok, ◌≡◌, ◌≢◌, ◌⊎◌, inl, inr, arith,
  Bool-cases, Option-cases, In, here, there, subst, ◌∙◌, ap, ◌==◌,
}
use fos_next.World.{
  Ip, v4, v6, History, Env, Act, pure, fail, ask, sys, sleep, call, branch, match_option, ◌>>=◌,
  ◌>>◌,
}
use fos_next.World.Gives.{bind-eq-ok, ok-injective}
use fos_next.Netup.{
  Nic, list_nics, is_usable, any_usable, first_addressed_mac, link_up_all, start_dhcp_all,
  await_address, is_empty, bring_up,
}

-- An IPv4 address outside of 127.0.0.0/8 and 169.254.0.0/16.
pub data Routable : Ip → Type 0 where
  routable : (a b c d : ℕ) → a ≢ 127 → (a ≢ 169) ⊎ (b ≢ 254) → Routable (v4 a b c d)

is_usable-Routable : (ip : Ip) → is_usable ip ≡ true → Routable ip
unfolding is_usable
is_usable-Routable (v4 a b c d) e = elim (Bool-cases (a == 169)) [
  | inl y ↦ routable a b c d (λ p. ground arith) (inr (λ q. ground arith))
  | inr n ↦ routable a b c d (λ p. ground arith) (inl (λ q. ground arith))
]
is_usable-Routable (v6 s) e = absurd (cc e)

Routable-is_usable : (ip : Ip) → Routable ip → is_usable ip ≡ true
unfolding is_usable
Routable-is_usable (v4 _ _ _ _) (routable a b c d p (inl q)) = ground arith
Routable-is_usable (v4 _ _ _ _) (routable a b c d p (inr q)) = ground arith
Routable-is_usable (v6 s) r = elim r [ ]

-- An interface of the list has a routable address, its MAC is the result, and no interface in front
-- of it has one.
pub data FirstRoutable (addrs : Bytes → List Ip) : List Nic → Bytes → Type 0 where
  found :
      (nic : Nic) (nics : List Nic) (ip : Ip)
      → In ip (addrs nic.name)
      → Routable ip
      → FirstRoutable addrs (nic ∷ nics) nic.mac
  later :
      (nic : Nic) (nics : List Nic) (mac : Bytes)
      → ((ip : Ip) → In ip (addrs nic.name) → ¬ Routable ip)
      → FirstRoutable addrs nics mac
      → FirstRoutable addrs (nic ∷ nics) mac

any_usable-In : (ips : List Ip) → any_usable ips ≡ true → (ip : Ip) × In ip ips × Routable ip
unfolding any_usable
any_usable-In [] e = absurd (cc e)
any_usable-In (ip ∷ ips) e = elim (Bool-cases (is_usable ip)) [
  | inl y ↦ (ip, here, is_usable-Routable ip y)
  | inr n ↦ let (x, i, r) = any_usable-In ips (rw n at e) in (x, there i, r)
]

not_usable : (ips : List Ip) → any_usable ips ≡ false → (ip : Ip) → In ip ips → ¬ Routable ip
unfolding any_usable
not_usable [] e ip i r = elim i [ ]
not_usable (ip ∷ ips) e _ here r = cc (rw (Routable-is_usable ip r) at e)
not_usable (x ∷ ips) e ip (there i) r = elim (Bool-cases (is_usable x)) [
  | inl y ↦ absurd (cc (rw y at e))
  | inr n ↦ not_usable ips (rw n at e) ip i r
]

first-FirstRoutable :
    (addrs : Bytes → List Ip) (nics : List Nic) (mac : Bytes)
    → first_addressed_mac addrs nics ≡ some mac
    → FirstRoutable addrs nics mac
unfolding first_addressed_mac
first-FirstRoutable addrs [] mac e = absurd (cc e)
first-FirstRoutable addrs (nic ∷ nics) mac e = elim (Bool-cases (any_usable (addrs nic.name))) [
  | inl y ↦
      let (ip, i, r) = any_usable-In (addrs nic.name) y in
      let same : nic.mac ≡ mac = cc (rw y at e) in
      subst (FirstRoutable addrs (nic ∷ nics)) same (found nic nics ip i r)
  | inr n ↦
      later nic nics mac (not_usable (addrs nic.name) n)
        (first-FirstRoutable addrs nics mac (rw n at e))
]

module _ (env : Env) where
  -- The MAC is that of the first interface with a routable address, as the history ends.
  await-FirstRoutable :
      (nics : List Nic) (rounds : ℕ) (h : History) (mac : Bytes)
      → (await_address env nics rounds h).0 ≡ ok mac
      → FirstRoutable (env.addresses (await_address env nics rounds h).1) nics mac
  unfolding await_address ◌>>=◌ ask match_option sys pure fail
  await-FirstRoutable nics zero h mac e = absurd (cc e)
  await-FirstRoutable nics (suc rounds) h mac e = elim (Option-cases (env.cancelled h)) [
    | inr (x, q) ↦ absurd (cc (rw q at e))
    | inl q ↦
        elim (Option-cases (first_addressed_mac (env.addresses (call (sleep 500) ∷ h)) nics)) [
          | inr (m, f) ↦
              let same : m ≡ mac = ok-injective (rw f at (rw q at e)) in
              rw (q, f) (first-FirstRoutable _ nics mac (f ∙ ap some same))
          | inl f ↦ rw (q, f) (await-FirstRoutable nics rounds _ mac (rw f at (rw q at e)))
        ]
  ]

  wait_for : List Nic → Act Bytes
  wait_for nics =
      branch (is_empty nics) (fail (codes "no non-loopback NICs found"))
        (do link_up_all env nics; start_dhcp_all env nics; await_address env nics 360)

  wait_for-FirstRoutable :
      (nics : List Nic) (h : History) (mac : Bytes)
      → (wait_for nics h).0 ≡ ok mac
      → FirstRoutable (env.addresses (wait_for nics h).1) nics mac
  unfolding wait_for branch is_empty fail
  wait_for-FirstRoutable [] h mac e = absurd (cc e)
  wait_for-FirstRoutable (nic ∷ nics) h mac e =
      let (_, _, w) = bind-eq-ok (link_up_all env (nic ∷ nics)) _ h e in
      let (_, _, w1) = bind-eq-ok (start_dhcp_all env (nic ∷ nics)) _ _ (rw w at e) in
      rw (w, w1) (await-FirstRoutable (nic ∷ nics) 360 _ mac (rw w1 at (rw w at e)))

  -- If `BringUp` returns a MAC, `ListNICs` returned interfaces, and the MAC is that of the first of
  -- them that has, when `BringUp` returns, an IPv4 address that is neither loopback nor link-local.
  pub bring_up-FirstRoutable :
      (h : History) (mac : Bytes)
      → (bring_up env h).0 ≡ ok mac
      → (nics : List Nic) × ((list_nics env h).0 ≡ ok nics)
        × FirstRoutable (env.addresses (bring_up env h).1) nics mac
  unfolding bring_up wait_for
  bring_up-FirstRoutable h mac e =
      let (nics, q, w) = bind-eq-ok (list_nics env) wait_for h e in
      (nics, q, rw w (wait_for-FirstRoutable nics _ mac (rw w at e)))
