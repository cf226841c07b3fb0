-- ===== src/Boot/Session.antt =====
-- What `main` of agent/cmd/fos-agent/main.go does with the token of a handshake.
use fos_next.Prelude.{false, List, ◌++◌, Bytes, codes, ok, ◌≡◌, subst, ap, sym, ◌∙◌, In}
use fos_next.Wire.{HandshakeRequest, HandshakeResponse, RegisterRequest, register}
use fos_next.World.{Syscall, Event, call, http, Request, History, Env, pure}
use fos_next.World.Adds.{Adds, Adds-weaken, adds_rules}
use fos_next.World.Gives.{bind-eq-ok, ok-injective}
use fos_next.Cmdline.{Params}
use fos_next.Api.{Client, post_request, shake_hands, send_register}
use fos_next.Api.Auth.{post-Adds}
use fos_next.Inventory.Calls.{collect-Adds}
use fos_next.Actions
use fos_next.Actions.{submit}
use fos_next.Actions.Authorized.{Authorized, dispatch-Authorized}
use fos_next.Boot.{halt, act_on, override}

-- The header that shows a token.
abbrev pub token_header : Bytes → Bytes × Bytes
token_header token = (codes "Authorization", codes "Bearer " ++ token)

-- A call of the system, a request that shows `token`, or a registration, which needs none.
pub data SessionEvent (client : Client) (token : Bytes) : Event → Type 0 where
  local : (c : Syscall) → SessionEvent client token (call c)
  bearing : (r : Request) → In (token_header token) r.headers → SessionEvent client token (http r)
  registering :
      (req : RegisterRequest)
      → SessionEvent client token
          (http (post_request client (codes "/register") (register req) false))

-- A handshake returns a client with the token of its response.
shake_hands-token :
    (env : Env) (c : Client) (req : HandshakeRequest) (h : History) {resp : HandshakeResponse}
    {client : Client}
    → (shake_hands env c req h).0 ≡ ok (resp, client)
    → client.token ≡ resp.boot_token
unfolding shake_hands pure
shake_hands-token env c req h e =
    let (r, _, w) = bind-eq-ok _ _ h e in
    let p = ok-injective (rw w at e) in
    sym (ap (λ (x : HandshakeResponse × Client). x.1.token) p)
    ∙ ap (λ (x : HandshakeResponse × Client). x.0.boot_token) p

module _ (env : Env) (client : Client) (token : Bytes) (same : client.token ≡ token) where
  Authorized-event : (e : Event) → Authorized client e → SessionEvent client token e
  Authorized-event e (Authorized.local c) = local c
  Authorized-event e (Authorized.bearing r i) =
      bearing r (subst (λ t. In (token_header t) r.headers) same i)

  send_register-Adds :
      (req : RegisterRequest) → Adds (SessionEvent client token) (send_register env client req)
  unfolding send_register
  send_register-Adds req = post-Adds env client _ _ _ _ (registering req) (λ d. local _)

  submit-Adds : (req : RegisterRequest) → Adds (SessionEvent client token) (submit env client req)
  unfolding submit
  submit-Adds req = search (adds_rules, send_register-Adds, local) depth 8

  register-Adds :
      (macs : List Bytes) → Adds (SessionEvent client token) (Actions.register env client macs)
  unfolding Actions.register
  register-Adds macs = search (adds_rules, collect-Adds, submit-Adds, local) depth 8

  dispatch-Adds :
      (resp : HandshakeResponse)
      → Adds (SessionEvent client token) (Actions.dispatch env client resp)
  dispatch-Adds resp = Adds-weaken _ Authorized-event (dispatch-Authorized env client resp)

  halt-Adds : Adds (SessionEvent client token) halt
  unfolding halt
  halt-Adds = search adds_rules

  act_on-Adds :
      (macs : List Bytes) (resp : HandshakeResponse)
      → Adds (SessionEvent client token) (act_on env client macs resp)
  unfolding act_on
  act_on-Adds macs resp = search (adds_rules, register-Adds, dispatch-Adds, halt-Adds) depth 8

-- What follows a successful handshake sends two kinds of requests: those with the token that the
-- handshake's response gave, and registrations, which carry no token; whatever action the response or
-- the command line names.
pub session-SessionEvent :
    (env : Env) (c : Client) (req : HandshakeRequest) (h : History) (resp : HandshakeResponse)
    (client : Client)
    → (shake_hands env c req h).0 ≡ ok (resp, client)
    → (params : Params) (macs : List Bytes)
    → Adds (SessionEvent client resp.boot_token) (act_on env client macs (override params resp))
session-SessionEvent env c req h resp client e params macs =
    act_on-Adds env client resp.boot_token (shake_hands-token env c req h e) macs
      (override params resp)
