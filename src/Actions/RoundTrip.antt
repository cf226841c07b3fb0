-- ===== src/Actions/RoundTrip.antt =====
-- `Capture` and `Deploy` of agent/internal/actions/actions.go, one after the other, with a server
-- between them.
use fos_next.Prelude.{
  ℕ, ◌+◌, ◌≤◌, ◌<◌, pos_part, arith, Bool, true, false, none, Bytes, codes, ok, ◌≡◌, sym, subst,
}
use fos_next.Strings.Equal.{equal_refl}
use fos_next.Wire.{HandshakeResponse, PartMeta, Codec}
use fos_next.World.{wait_exit, Reply, History, Env}
use fos_next.World.Adds.{Emits, nothing}
use fos_next.World.Ran.{Any}
use fos_next.World.Ran.{Ran, Ran-within}
use fos_next.Api.{Client}
use fos_next.Disk
use fos_next.Disk.{partition_device}
use fos_next.Disk.Numbers.{Settled}
use fos_next.Partition
use fos_next.Partition.RoundTrip.{IsText}
use fos_next.Imaging.{clone_command, restore_command}
use fos_next.Actions.Capture.{capture_steps}
use fos_next.Actions.Capture.Numbering.{count, count_all}
use fos_next.Actions.Capture.Kept.{kept}
use fos_next.Actions.Capture.Clones as Captured
use fos_next.Actions.Capture.Clones.{uuid_call, uuid_of, Content}
use fos_next.Actions.Capture.Stored.{capture_steps-Uploaded, capture_steps-Table}
use fos_next.Actions.Deploy.{starts_with_brace, deploy_steps}
use fos_next.Actions.Deploy.Restored.{Passed, Passed-until}
use fos_next.Actions.Deploy.Contents as Deployed
use fos_next.Actions.Deploy.Contents.{Serves, Drains, mkswap_call, Restored}
use fos_next.Actions.Deploy.Served.{deploy_steps-Restored, deploy_steps-Table}

abbrev swap_meta : Bytes → PartMeta
swap_meta uuid = record { type = codes "swap"; uuid = uuid }

-- What `encoding/json` promises: a sentinel whose UUID is ASCII is read back as it was written.
abbrev pub ReadsSwap : Codec → Codec → Type 0
ReadsSwap c c' =
    (uuid : Bytes)
    → IsText uuid
    → c'.unmarshal_meta (c.marshal_meta (swap_meta uuid)) ≡ swap_meta uuid

-- And an object is written with a brace in front.
abbrev pub Braced : Codec → Type 0
Braced c = (m : PartMeta) → starts_with_brace (c.marshal_meta m) ≡ true

-- The UUID that blkid prints for the device is ASCII.
abbrev pub TextUuid : Env → Bytes → Type 0
TextUuid env dev = (h : History) → IsText (uuid_of (env.answer h (uuid_call dev)))

-- An image that partclone makes of the device does not begin with a brace.
abbrev pub Unbraced : Env → Bytes → Type 0
Unbraced env dev =
    (h : History) (fs : Bytes)
    → starts_with_brace (env.answer h (wait_exit (clone_command env dev fs))).out ≡ false

-- One device is made a copy of another: what partclone wrote of the one, and ended without an error,
-- is what partclone restored to the other, without an error; or mkswap made the other a swap
-- partition with the UUID that blkid printed for the one.
pub data Transferred (env env' : Env) (dev dev' : Bytes) (start final start' final' : History)
    : Type 0 where
  image :
      (fs b : Bytes) (r : Reply)
      → Ran env
          (wait_exit (clone_command env dev fs))
          (record { out = b; fault = none })
          start
          final
      → r.fault ≡ none
      → Ran env' (wait_exit (restore_command env' dev' b)) r start' final'
      → Transferred env env' dev dev' start final start' final'
  swap :
      (r r' : Reply)
      → Ran env (uuid_call dev) r start final
      → r'.fault ≡ none
      → Ran env' (mkswap_call env' dev' (uuid_of r)) r' start' final'
      → Transferred env env' dev dev' start final start' final'

pub Transferred-later :
    {env env' : Env} {dev dev' : Bytes} {start g final start' g' final' : History}
    → Transferred env env' dev dev' start g start' g'
    → Emits Any g final
    → Emits Any g' final'
    → Transferred env env' dev dev' start final start' final'
Transferred-later (image fs b r p f q) e e' =
    image fs b r (Ran-within nothing p e) f (Ran-within nothing q e')
Transferred-later (swap r r' p f q) e e' =
    swap r r' (Ran-within nothing p e) f (Ran-within nothing q e')

module _ (env env' : Env) (law : ReadsSwap env.codec env'.codec) (braced : Braced env.codec)
    (dev dev' : Bytes) (text : TextUuid env dev) (unbraced : Unbraced env dev) where
  image-Unbraced :
      (fs : Bytes) {b : Bytes} {start final : History}
      → Ran env
          (wait_exit (clone_command env dev fs))
          (record { out = b; fault = none })
          start
          final
      → starts_with_brace b ≡ false
  image-Unbraced fs p =
      subst (λ r. starts_with_brace (Reply.out r) ≡ false) p.answered (unbraced p.at fs)

  swap-read :
      {r : Reply} {b : Bytes} {start final : History}
      → Ran env (uuid_call dev) r start final
      → env.codec.marshal_meta (swap_meta (uuid_of r)) ≡ b
      → env'.codec.unmarshal_meta b ≡ swap_meta (uuid_of r)
  swap-read {r} p q =
      let is_text : IsText (uuid_of r) = subst (λ r. IsText (uuid_of r)) p.answered (text p.at) in
      rw (sym q) (law (uuid_of r) is_text)

  transferred :
      {b : Bytes} {start final start' final' : History}
      → Content env dev b start final
      → Restored env' dev' b start' final'
      → Transferred env env' dev dev' start final start' final'
  transferred (Captured.image fs p) (Deployed.image r f n q) = image fs _ r p f q
  transferred (Captured.image fs p) (Deployed.swap r f y t q) =
      let n = image-Unbraced fs p in absurd (cc (n, y))
  transferred (Captured.image fs p) (Deployed.other y t) =
      let n = image-Unbraced fs p in absurd (cc (n, y))
  transferred (Captured.swap r p q) (Deployed.image r' f n ran) =
      let y = braced (swap_meta (uuid_of r)) in absurd (cc (n, rw q at y))
  transferred (Captured.swap r p q) (Deployed.swap r' f y t ran) =
      let same = swap-read p q in swap r r' p f (rw same at ran)
  transferred (Captured.swap r p q) (Deployed.other y n) =
      let same = swap-read p q in absurd (cc (equal_refl (codes "swap"), rw same at n))

-- The blob that `partition.Backup` returned for one disk has been restored to another, without an
-- error, by `partition.Restore`.
pub record TableTransferred (env env' : Env) (disk disk' : Bytes) (start start' final' : History)
    : Type 0 where
  pub blob : Bytes
  pub from : History
  pub since : Emits Any start from
  pub made : (Partition.backup env disk from).0 ≡ ok blob
  pub restored : Passed (Partition.restore env' disk' blob) start' final'

pub TableTransferred-later :
    {env env' : Env} {disk disk' : Bytes} {start start' g' final' : History}
    → TableTransferred env env' disk disk' start start' g'
    → Emits Any g' final'
    → TableTransferred env env' disk disk' start start' final'
TableTransferred-later t e = record {
  blob = t.blob;
  from = t.from;
  since = t.since;
  made = t.made;
  restored = Passed-until t.restored e;
}

module _ (env env' : Env) (client client' : Client) (resp resp' : HandshakeResponse)
    (h h' : History) (disk disk' : Bytes) (exists : ℕ → Bool) where
  -- If the steps of `Capture` return no error, and then those of `Deploy`, with a server between them
  -- that has the last uploads, then the partition table and each partition have been transferred. The
  -- conditions are those of `deploy-capture` in Actions/Success.
  pub deploy_steps-capture_steps :
      (capture_steps env client resp h).0 ≡ ok tt
      → (Disk.primary env h).0 ≡ ok disk
      → Settled env disk exists
      → Serves env' client' resp'.image_id
          (λ k. kept client resp.image_id k (capture_steps env client resp h).1)
      → Drains env'
      → (deploy_steps env' client' resp' h').0 ≡ ok tt
      → (Disk.primary env' h').0 ≡ ok disk'
      → ReadsSwap env.codec env'.codec
      → Braced env.codec
      → (d : ℕ) → d < 128
      → ((n : ℕ) → 1 ≤ n → n ≤ 1 + d → exists n ≡ true)
      → 1 + d ≤ pos_part resp'.part_count
      → TextUuid env (partition_device disk (1 + d))
      → Unbraced env (partition_device disk (1 + d))
      → TableTransferred env env' disk disk' h h' (deploy_steps env' client' resp' h').1
        × Transferred env env'
            (partition_device disk (1 + d))
            (partition_device disk' (1 + d))
            h
            (capture_steps env client resp h).1
            h'
            (deploy_steps env' client' resp' h').1
  deploy_steps-capture_steps captured chosen settled serves drains deployed chosen' law braced d lt
        there le text unbraced =
      let store = λ (k : ℕ). kept client resp.image_id k (capture_steps env client resp h).1 in
      let table = capture_steps-Table env client resp h disk exists captured chosen settled in
      let put =
        deploy_steps-Table env' client' resp' store serves drains h' disk' deployed chosen'
          table.blob table.stored in
      let same : count exists 1 d ≡ d =
        count_all exists 1 d (λ g lo hi. there g lo (omega arith)) in
      let up = rw same at (
        capture_steps-Uploaded env client resp h disk exists captured chosen settled d lt
          (there (1 + d) (omega arith) (omega arith))) in
      let down =
        deploy_steps-Restored env' client' resp' store serves drains h' disk' deployed chosen'
          (1 + d) (omega arith) le up.bytes up.stored in
      (
        record {
          blob = table.blob;
          from = table.from;
          since = table.since;
          made = table.made;
          restored = put;
        },
        transferred env env' law braced (partition_device disk (1 + d))
            (partition_device disk' (1 + d)) text unbraced up.content down,
      )
