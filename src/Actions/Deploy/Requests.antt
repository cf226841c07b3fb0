-- ===== src/Actions/Deploy/Requests.antt =====
-- What `Deploy` of agent/internal/actions/actions.go asks of the server.
use fos_next.Prelude.{
  ℕ, zero, suc, ◌+◌, ◌≤◌, ℤ, pos, pos_part, true, Option, some, Bytes, codes, ◌≡◌, refl, arith,
}
use fos_next.Wire.{HandshakeResponse, ProgressRequest, progress}
use fos_next.World.{Syscall, Reply, Event, call, http, History, Env}
use fos_next.World.Adds.{Adds, Adds-bind, Adds-result, adds_rules}
use fos_next.Api.{Client, post_request, download_request}
use fos_next.Api.Auth.{download_part-Adds}
use fos_next.Disk.Calls.{primary-Adds}
use fos_next.Partition.Calls.{restore-Adds as table_restore-Adds, expand_last-Adds}
use fos_next.Actions.Parts.{progress_fn}
use fos_next.Actions.Parts.Verdict.{Reported, report-Reported}
use fos_next.Actions.Parts.Events.{failing-Adds, progress_fn-Adds}
use fos_next.Actions.Deploy.Calls.{read_all-Adds, restore_sentinel-Adds, restore_image-Adds}
use fos_next.Actions.Deploy.{
  restore_sentinel, restore_image, try_part, attempt_loop, deploy_part, deploy_parts, deploy_table,
  grow_last, deploy_steps, deploy,
}

-- The events of the steps of `Deploy`: calls of the system, downloads of whole parts among those
-- that the handshake counts, and progress reports that claim no transferred bytes.
pub data StepEvent (client : Client) (resp : HandshakeResponse) : Event → Type 0 where
  local : (c : Syscall) → StepEvent client resp (call c)
  download :
      (part : ℕ)
      → part ≤ pos_part resp.part_count
      → StepEvent client resp (http (download_request client resp.image_id part 0))
  progressed :
      (p : ProgressRequest)
      → p.task_id ≡ resp.task_id
      → p.bytes_transferred ≡ pos 0
      → StepEvent client resp (http (post_request client (codes "/progress") (progress p) true))

module _ (env : Env) (client : Client) (resp : HandshakeResponse) where
  abbrev pub Q : Event → Type 0
  Q = StepEvent client resp

  reports : (pct bpm : ℤ) → Adds Q (progress_fn env client resp pct bpm)
  reports = progress_fn-Adds env local client resp (λ pct bpm. progressed _ refl refl)

  restore_sentinel-Q :
      (dev : Bytes) (body : Reply) → Adds Q (restore_sentinel env client resp dev body)
  restore_sentinel-Q = restore_sentinel-Adds env local client resp

  restore_image-Q :
      (part : ℕ) (dev : Bytes) (body : Reply) → Adds Q (restore_image env client resp part dev body)
  restore_image-Q = restore_image-Adds env local client resp reports

  module _ (target_disk : Bytes) where
    pub try_part-Adds :
        (part : ℕ)
        → part ≤ pos_part resp.part_count
        → Adds Q (try_part env client resp target_disk part)
    unfolding try_part
    try_part-Adds part h =
        search (adds_rules, download_part-Adds, restore_sentinel-Q, restore_image-Q, download, h)

    attempt_loop-Adds :
        (part : ℕ)
        → part ≤ pos_part resp.part_count
        → (rounds : ℕ) (e : Option Bytes)
        → Adds Q (attempt_loop env client resp target_disk part rounds e)
    unfolding attempt_loop
    attempt_loop-Adds part h zero e = search adds_rules
    attempt_loop-Adds part h (suc rounds) e =
        Adds-bind _ _ (search (adds_rules, try_part-Adds, h)) (λ r.
          Adds-result r _ _ (λ _. search adds_rules)
            (λ x.
              Adds-bind _ _ (search (adds_rules, local))
                (λ _. attempt_loop-Adds part h rounds (some x))))

    pub deploy_part-Adds :
        (part : ℕ)
        → part ≤ pos_part resp.part_count
        → Adds Q (deploy_part env client resp target_disk part)
    unfolding deploy_part
    deploy_part-Adds part h = search (adds_rules, attempt_loop-Adds, h)

    pub deploy_parts-Adds :
        (left part : ℕ)
        → part + left ≤ pos_part resp.part_count + 1
        → Adds Q (deploy_parts env client resp target_disk left part)
    unfolding deploy_parts
    deploy_parts-Adds zero part h = search adds_rules
    deploy_parts-Adds (suc left) part h =
        Adds-bind _ _ (deploy_part-Adds part (omega arith))
          (λ _. deploy_parts-Adds left (part + 1) (omega arith))

    zero_le : 0 ≤ pos_part resp.part_count
    zero_le = omega arith

    pub deploy_table-Adds : Adds Q (deploy_table env client resp target_disk)
    unfolding deploy_table
    deploy_table-Adds =
        search
          (
            adds_rules, failing-Adds, download_part-Adds, download, zero_le, read_all-Adds,
            table_restore-Adds, local,
          )
          depth 8

    pub grow_last-Adds : Adds Q (grow_last env client resp target_disk)
    unfolding grow_last
    grow_last-Adds = search (adds_rules, expand_last-Adds, local)

    all_parts-Adds : Adds Q (deploy_parts env client resp target_disk (pos_part resp.part_count) 1)
    all_parts-Adds = deploy_parts-Adds _ 1 (omega arith)

  -- The steps of `Deploy` in front of its report talk to the server only by downloads and progress
  -- reports: each download asks for a part from 0 up to the number of parts, always from offset 0,
  -- and each progress report carries the task's id and 0 transferred bytes.
  pub deploy_steps-StepEvent : Adds (StepEvent client resp) (deploy_steps env client resp)
  unfolding deploy_steps
  deploy_steps-StepEvent =
      search
        (
          adds_rules, failing-Adds, primary-Adds, deploy_table-Adds, grow_last-Adds, all_parts-Adds,
          local,
        )
        depth 9

-- `Deploy` ends with one verdict for its task, sent at least once and at most five times, and with
-- no other request; it is success exactly if the steps as a whole returned no error.
pub deploy-Reported :
    (env : Env) (client : Client) (resp : HandshakeResponse) (h : History)
    → Reported client resp (deploy_steps env client resp h) (deploy env client resp h)
unfolding deploy
deploy-Reported env client resp h = report-Reported env client resp (deploy_steps env client resp) h
