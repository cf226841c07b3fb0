-- ===== src/Tests/Session.antt =====
-- Runs of `main` of agent/cmd/fos-agent/main.go and of what it starts.
use fos_next.Prelude.{
  arith, ℕ, ◌+◌, ◌≤◌, pos_part, false, [], ◌∷◌, codes, ok, if◌then◌else◌, ◌≡◌, List, refl,
}
use fos_next.Strings.{equal, trim_space, trim_left, trim_right, is_space}
use fos_next.Wire.{HandshakeRequest, LogEntry}
use fos_next.World.{
  v4, Env, pure, fail, attempt, lift, ask, branch, match_result, match_option, ◌>>=◌, sys, send,
  exec_with, combined_output, checked, try, wrapped,
}
use fos_next.World.Adds.{Adds}
use fos_next.Api
use fos_next.Api.{shake_hands, post, post_loop, do_post, post_response}
use fos_next.Cmdline.{Params}
use fos_next.Netup.{
  Nic, list_nics, read_nics, is_usable, any_usable, first_addressed_mac, link_up_all, link_up,
  run_udhcpc, start_dhcp_all, await_address, is_empty, bring_up,
}
use fos_next.Netup.Address.{FirstRoutable, bring_up-FirstRoutable}
use fos_next.Actions.{dispatch}
use fos_next.Actions.Authorized.{Authorized, dispatch-Authorized}
use fos_next.Actions.Deploy.{deploy_steps}
use fos_next.Actions.Deploy.Downloads.{downloads, deploy_steps-downloads}
use fos_next.Boot.{act_on, override}
use fos_next.Boot.Session.{SessionEvent, session-SessionEvent}
use fos_next.Tests.{demo_env, demo_client, demo_resp}

dispatch-Authorized_example :
    Adds (Authorized demo_client) (dispatch demo_env demo_client demo_resp)
dispatch-Authorized_example = dispatch-Authorized demo_env demo_client demo_resp

deploy_steps-downloads_example :
    (downloads demo_client demo_resp.image_id 0 (deploy_steps demo_env demo_client demo_resp []).1
      ≤ downloads demo_client demo_resp.image_id 0 [] + 1)
    × ((k : ℕ)
        → 1 ≤ k
        → k ≤ pos_part demo_resp.part_count
        → downloads demo_client demo_resp.image_id k
            (deploy_steps demo_env demo_client demo_resp []).1
          ≤ downloads demo_client demo_resp.image_id k [] + 3)
deploy_steps-downloads_example =
    deploy_steps-downloads demo_env demo_client demo_resp [] (omega arith)

abbrev demo_request : HandshakeRequest
demo_request = record { macs = codes "aa" ∷ [] }

shaken :
    (shake_hands demo_env (Api.new (codes "http://fog")) demo_request []).0
    ≡ ok (demo_resp, record (Api.new (codes "http://fog")) { token = demo_resp.boot_token })
unfolding shake_hands post post_loop do_post send lift post_response attempt match_result pure ◌>>=◌
shaken = refl

abbrev demo_params : Params
demo_params = record {
  fog_server = codes "http://fog";
  fog_action = [];
  fog_host = [];
  fog_debug = false;
}

session-SessionEvent_example :
    Adds
      (SessionEvent
        (record (Api.new (codes "http://fog")) { token = demo_resp.boot_token })
        demo_resp.boot_token)
      (act_on demo_env
        (record (Api.new (codes "http://fog")) { token = demo_resp.boot_token })
        (codes "aa" ∷ [])
        (override demo_params demo_resp))
session-SessionEvent_example =
    session-SessionEvent demo_env (Api.new (codes "http://fog")) demo_request [] demo_resp
      (record (Api.new (codes "http://fog")) { token = demo_resp.boot_token }) shaken demo_params
      (codes "aa" ∷ [])

-- the world, with a link-local interface and one with an address of the site
abbrev wired_env : Env
wired_env = record demo_env {
  entries = λ h. codes "lo" ∷ codes "eth0" ∷ codes "eth1" ∷ [];
  addresses = λ h name. if equal name (codes "eth1") then v4 10 0 0 5 ∷ [] else v4 169 254 7 7 ∷ [];
}

up : (bring_up wired_env []).0 ≡ ok []
unfolding bring_up list_nics read_nics is_usable any_usable first_addressed_mac link_up_all link_up
    run_udhcpc start_dhcp_all await_address is_empty pure fail attempt ask branch match_result
    match_option ◌>>=◌ sys exec_with combined_output checked try wrapped equal trim_space trim_left
    trim_right is_space
up = refl

bring_up-FirstRoutable_example :
    (nics : List Nic) × ((list_nics wired_env []).0 ≡ ok nics)
    × FirstRoutable (wired_env.addresses (bring_up wired_env []).1) nics []
bring_up-FirstRoutable_example = bring_up-FirstRoutable wired_env [] [] up

abbrev logged_before : List LogEntry
logged_before =
    record { time = []; level = codes "INFO"; msg = codes "fos-agent starting"; attrs = [] }
    ∷ record { time = []; level = codes "INFO"; msg = codes "network up"; attrs = [] }
    ∷ []
