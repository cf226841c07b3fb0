-- ===== src/Actions/Capture/Clones.antt =====
-- What `clone` and `readPartitionUUID` of the agent return, and what they have run for it: the content of
-- an upload of `Capture` of agent/internal/actions/actions.go.
use fos_next.Prelude.{
  ℤ, [], ◌∷◌, Option, none, some, Bytes, codes, ok, ◌≡◌, refl, ap, ◌∙◌, inl, inr, Option-cases,
  Result-cases,
}
use fos_next.Strings.{trim_space}
use fos_next.World.{
  Command, Syscall, exec, wait_exit, Reply, call, History, Env, pure, fail, attempt, sys,
  match_result, match_option, ◌>>=◌, output, combined_output, exec_with, checked,
}
use fos_next.World.Adds.{Emits, Adds}
use fos_next.World.Ran.{Any}
use fos_next.World.Ran.{Ran, Ran-within, anything}
use fos_next.World.Gives.{ok-injective}
use fos_next.Imaging.{partclone, clone, clone_command}
use fos_next.Imaging.Status.{ProgressFunc, read_status}
use fos_next.Imaging.Calls.{read_status-Adds}
use fos_next.Imaging.Unbroken.{polled-later, partclone-eq-ok}
use fos_next.Actions.Parts.{read_partition_uuid}

abbrev pub uuid_call : Bytes → Syscall
uuid_call dev = exec (record {
  name = codes "blkid";
  args = codes "-s" ∷ codes "UUID" ∷ codes "-o" ∷ codes "value" ∷ dev ∷ [];
  stdin = [];
})

abbrev uuid_if : Option Bytes → Bytes → Bytes
uuid_if none out = trim_space out
uuid_if (some e) out = []

-- the UUID that blkid printed, none if it failed
abbrev pub uuid_of : Reply → Bytes
uuid_of r = uuid_if r.fault r.out

-- What the upload of a partition holds: what partclone wrote and ended without an error, or the
-- sentinel of a swap partition with the UUID that blkid printed.
pub data Content (env : Env) (dev b : Bytes) (start final : History) : Type 0 where
  image :
      (fs : Bytes)
      → Ran env
          (wait_exit (clone_command env dev fs))
          (record { out = b; fault = none })
          start
          final
      → Content env dev b start final
  swap :
      (r : Reply)
      → Ran env (uuid_call dev) r start final
      → env.codec.marshal_meta (record { type = codes "swap"; uuid = uuid_of r }) ≡ b
      → Content env dev b start final

pub Content-within :
    {env : Env} {dev b : Bytes} {start h h' final : History}
    → Emits Any start h
    → Content env dev b h h'
    → Emits Any h' final
    → Content env dev b start final
Content-within e (image fs r) e' = image fs (Ran-within e r e')
Content-within e (swap r p q) e' = swap r (Ran-within e p e') q

module _ (env : Env) where
  pub read_partition_uuid-eq :
      (dev : Bytes) (h : History)
      → read_partition_uuid env dev h
        ≡ (ok (uuid_of (env.answer h (uuid_call dev))), call (uuid_call dev) ∷ h)
  unfolding read_partition_uuid output combined_output exec_with checked sys attempt ◌>>=◌
      match_result match_option pure fail
  read_partition_uuid-eq dev h = elim (Option-cases (env.answer h (uuid_call dev)).fault) [
    | inl n ↦ rw n refl
    | inr (x, s) ↦ rw s refl
  ]

module _ (env : Env) (progress : ProgressFunc)
    (reports : (pct bpm : ℤ) → Adds Any (progress pct bpm)) where
  partclone-Ran :
      (command : Command) (r : Reply) (h : History)
      → (partclone env command progress h).0 ≡ ok r
      → Ran env (wait_exit command) r h (partclone env command progress h).1
  partclone-Ran command r h e =
      let (g, (rounds, started), answered, final) = partclone-eq-ok env progress command h r e in
      record {
        at = g;
        since = rw started (polled-later env progress reports command h rounds);
        answered = answered;
        behind = rw final (
            anything (read_status env progress) _
              (read_status-Adds env (λ c. tt) progress reports));
      }

  pub clone-Ran :
      (dev fs : Bytes) (r : Reply) (h : History)
      → (clone env dev fs progress h).0 ≡ ok r
      → r.fault ≡ none
      → Ran env (wait_exit (clone_command env dev fs)) r h (clone env dev fs progress h).1
  unfolding clone ◌>>=◌ attempt match_result match_option pure
  clone-Ran dev fs r h e n =
      elim (Result-cases (partclone env (clone_command env dev fs) progress h).0) [
        | inr (x, q) ↦ absurd (cc (ap (λ v. Reply.fault v) (ok-injective (rw q at e)), n))
        | inl (a, q) ↦ elim (Option-cases a.fault) [
          | inr (y, f) ↦
              absurd (cc (ap (λ v. Reply.fault v) (ok-injective (rw f at (rw q at e))), n))
          | inl f ↦
              let same : a ≡ r =
                ap (λ x. record { out = a.out; fault = x }) f
                ∙ ok-injective (rw f at (rw q at e)) in
              rw (q, f) (partclone-Ran (clone_command env dev fs) r h (q ∙ ap ok same))
        ]
      ]
