-- ===== src/Actions/Deploy/Restored.antt =====
-- What success of `Deploy` of agent/internal/actions/actions.go means, and how often it downloads.
use fos_next.Prelude.{
  ℕ, zero, suc, ◌+◌, ◌≤◌, pos_part, [], none, some, Bytes, codes, ok, ◌≡◌, ap, subst, ◌++◌, ◌<◌,
  ◌∙◌, inl, inr, arith, Result-cases,
}
use fos_next.Wire.{HandshakeResponse}
use fos_next.World.{History, Env, Act, pure, attempt, sys, match_result, ◌>>=◌}
use fos_next.World.Adds.{Emits, nothing, event, Emits-trans}
use fos_next.World.Ran.{anything}
use fos_next.World.Gives.{bind-eq-ok, wrapped-eq-ok, match_option-eq-ok}
use fos_next.Api.{Client}
use fos_next.Disk
use fos_next.Strconv.{itoa}
use native.Mathlib.Decide.{ℕ_discrete as dec_eq}
use fos_next.Actions.Parts.{failing}
use fos_next.Actions.Parts.Events.{failing-Adds}
use fos_next.Disk.Calls.{primary-Adds}
use fos_next.Actions.Deploy.Requests.{
  try_part-Adds, deploy_part-Adds, deploy_parts-Adds, deploy_table-Adds, grow_last-Adds,
}
use fos_next.Actions.Deploy.{
  try_part, attempt_loop, deploy_part, deploy_parts, deploy_table, grow_last, deploy_steps,
}

-- A run of `m` that returned no error stands between the two histories.
pub record Passed (m : Act (Unit {0})) (h final : History) : Type 0 where
  pub from : History
  pub before : Emits (λ _. Unit {0}) h from
  pub no_error : (m from).0 ≡ ok tt
  pub behind : Emits (λ _. Unit {0}) (m from).1 final

pub Passed-after :
    {m : Act (Unit {0})} {h h' final : History}
    → Emits (λ _. Unit {0}) h h'
    → Passed m h' final
    → Passed m h final
Passed-after e p = record {
  from = p.from;
  before = Emits-trans e p.before;
  no_error = p.no_error;
  behind = p.behind;
}

pub Passed-until :
    {m : Act (Unit {0})} {h final final' : History}
    → Passed m h final
    → Emits (λ _. Unit {0}) final final'
    → Passed m h final'
Passed-until p e = record {
  from = p.from;
  before = p.before;
  no_error = p.no_error;
  behind = Emits-trans p.behind e;
}

module _ (env : Env) (client : Client) (resp : HandshakeResponse) (disk : Bytes) where
  loop-Passed :
      (part : ℕ)
      → part ≤ pos_part resp.part_count
      → (rounds : ℕ) (x : Bytes) (h : History)
      → (attempt_loop env client resp disk part rounds (some x) h).0 ≡ ok none
      → Passed
          (try_part env client resp disk part)
          h
          (attempt_loop env client resp disk part rounds (some x) h).1
  unfolding attempt_loop ◌>>=◌ attempt match_result sys pure
  loop-Passed part le zero x h e = absurd (cc e)
  loop-Passed part le (suc rounds) x h e =
      elim (Result-cases (try_part env client resp disk part h).0) [
        | inl (u, q) ↦ rw q (record { from = h; before = nothing; no_error = q; behind = nothing })
        | inr (y, q) ↦ rw q (
            Passed-after (event tt (anything _ h (try_part-Adds env client resp disk part le)))
              (loop-Passed part le rounds y _ (rw q at e)))
      ]

  first-Passed :
      (part : ℕ)
      → part ≤ pos_part resp.part_count
      → (h : History) → (attempt_loop env client resp disk part 3 none h).0 ≡ ok none
      → Passed
          (try_part env client resp disk part)
          h
          (attempt_loop env client resp disk part 3 none h).1
  unfolding attempt_loop
  first-Passed part le h e = loop-Passed part le 3 [] h e

  deploy_part-Passed :
      (part : ℕ)
      → part ≤ pos_part resp.part_count
      → (h : History) → (deploy_part env client resp disk part h).0 ≡ ok tt
      → Passed (try_part env client resp disk part) h (deploy_part env client resp disk part h).1
  unfolding deploy_part
  deploy_part-Passed part le h e =
      let (x, q, w) = bind-eq-ok (attempt_loop env client resp disk part 3 none) _ h e in
      let (n, s) =
        match_option-eq-ok x
          (λ e. codes "partition " ++ itoa part ++ codes " restore failed after 3 attempts: " ++ e)
          _ (rw w at e) in
      rw (w, s) (first-Passed part le h (q ∙ ap ok n))

  deploy_parts-Passed :
      (left part : ℕ)
      → part + left ≤ pos_part resp.part_count + 1
      → (h : History) → (deploy_parts env client resp disk left part h).0 ≡ ok tt
      → (i : ℕ) → part ≤ i
      → i < part + left
      → Passed (try_part env client resp disk i) h (deploy_parts env client resp disk left part h).1
  unfolding deploy_parts
  deploy_parts-Passed zero part le h e i lo hi = absurd (omega arith)
  deploy_parts-Passed (suc left) part le h e i lo hi =
      let (u, q, w) = bind-eq-ok (deploy_part env client resp disk part) _ h e in
      let le' : part ≤ pos_part resp.part_count = omega arith in
      let le'' : part + 1 + left ≤ pos_part resp.part_count + 1 = omega arith in
      rw w (elim (dec_eq part i) [
        | yes p ↦
            Passed-until
              (subst
                (λ j.
                  Passed (try_part env client resp disk j) h
                    (deploy_part env client resp disk part h).1)
                p (deploy_part-Passed part le' h q))
              (anything _ _ (deploy_parts-Adds env client resp disk left (part + 1) le''))
        | no ne ↦
            Passed-after (anything _ h (deploy_part-Adds env client resp disk part le'))
              (deploy_parts-Passed left (part + 1) le'' _ (rw w at e) i (omega arith) (omega arith))
      ])

-- In a run from `h` to `final` the restore of the partition table to the disk that `Primary` chose
-- returned no error, and so did an attempt for each part.
pub record Deployed (env : Env) (client : Client) (resp : HandshakeResponse) (h final : History)
    : Type 0 where
  pub disk : Bytes
  pub chosen : (Disk.primary env h).0 ≡ ok disk
  pub table : Passed (deploy_table env client resp disk) h final
  pub parts :
      (i : ℕ)
      → 1 ≤ i
      → i ≤ pos_part resp.part_count
      → Passed (try_part env client resp disk i) h final

failing-eq-ok :
    {A : Type 0} (context : Bytes) (m : Act A) (h : History) {a : A}
    → (failing context m h).0 ≡ ok a
    → ((m h).0 ≡ ok a) × ((failing context m h).1 ≡ (m h).1)
unfolding failing
failing-eq-ok context m h e = wrapped-eq-ok context m h e

pub deploy_steps-Deployed :
    (env : Env) (client : Client) (resp : HandshakeResponse) (h : History)
    → (deploy_steps env client resp h).0 ≡ ok tt
    → Deployed env client resp h (deploy_steps env client resp h).1
unfolding deploy_steps
deploy_steps-Deployed env client resp h e =
    let (disk, found, w) =
      bind-eq-ok (failing (codes "disk detection failed: ") (Disk.primary env)) _ h e in
    let (u, tabled, w') = bind-eq-ok (deploy_table env client resp disk) _ _ (rw w at e) in
    let (v, _, w'') = bind-eq-ok (grow_last env client resp disk) _ _ (rw w' at (rw w at e)) in
    let looped = rw w'' at (rw w' at (rw w at e)) in
    let all_parts = deploy_parts env client resp disk (pos_part resp.part_count) 1 in
    let start = (failing-eq-ok _ (Disk.primary env) h found) in
    let g0 = (failing (codes "disk detection failed: ") (Disk.primary env) h).1 in
    let g1 = (deploy_table env client resp disk g0).1 in
    let g2 = (grow_last env client resp disk g1).1 in
    let chosen = anything {Q = λ _. Unit {0}} _ h (
      failing-Adds env (λ _. tt) (codes "disk detection failed: ") _
        (primary-Adds env (λ _. tt))) in
    let tabled' = anything _ g0 (deploy_table-Adds env client resp disk) in
    let grown' = anything _ g1 (grow_last-Adds env client resp disk) in
    let looped' =
      anything _ g2
        (deploy_parts-Adds env client resp disk (pos_part resp.part_count) 1 (omega arith)) in
    rw (w, w', w'')
      (record {
        disk = disk;
        chosen = start.0;
        table = record {
          from = g0;
          before = chosen;
          no_error = tabled;
          behind = Emits-trans grown' looped';
        };
        parts = λ i lo hi. Passed-after (Emits-trans chosen (Emits-trans tabled' grown')) (
            deploy_parts-Passed env client resp disk (pos_part resp.part_count) 1 (omega arith) g2
              looped i lo (omega arith));
      })
