-- ===== src/Actions/Deploy/Served.antt =====
-- What the steps of `Deploy` of agent/internal/actions/actions.go leave on the disk, for a server that has
-- the parts of an image.
use fos_next.Prelude.{
  ℕ, ◌≤◌, pos_part, Option, none, some, Bytes, codes, ok, ◌≡◌, sym, ap, ◌∙◌, subst,
}
use fos_next.Wire.{HandshakeResponse}
use fos_next.World.{History, Env, pure, match_option}
use fos_next.World.Adds.{Emits, nothing}
use fos_next.World.Ran.{Any}
use fos_next.World.Ran.{anything-until}
use fos_next.World.Gives.{ok-injective, returns, bind-returns, wrapped-returns}
use fos_next.Api.{Client, download_part}
use fos_next.Api.Auth.{download_part-Adds}
use fos_next.Disk.{partition_device}
use fos_next.Disk
use fos_next.Partition
use fos_next.Actions.Parts.{failing}
use fos_next.Actions.Deploy.{read_all, deploy_table, deploy_steps}
use fos_next.Actions.Deploy.Restored.{Passed, Passed-after, Passed-until, deploy_steps-Deployed}
use fos_next.Actions.Deploy.Contents.{
  Serves, Drains, read_all-whole, Restored, Restored-within, downloaded, try_part-Restored,
}

module _ (env : Env) (client : Client) (resp : HandshakeResponse) (store : ℕ → Option Bytes)
    (serves : Serves env client resp.image_id store) (drains : Drains env) where
  table_read :
      (b t : Bytes) (h g : History)
      → read_all (record { out = b; fault = none }) h ≡ (ok t, g)
      → (t ≡ b) × (h ≡ g)
  unfolding read_all match_option pure
  table_read b t h g e = (sym (ok-injective (ap (λ r. r.0) e)), ap (λ r. r.1) e)

  -- A restore of the partition table that returns no error has restored the part that the server has.
  deploy_table-Passed :
      (disk b : Bytes) (h final : History)
      → store 0 ≡ some b
      → deploy_table env client resp disk h ≡ (ok tt, final)
      → Passed (Partition.restore env disk b) h final
  unfolding deploy_table failing
  deploy_table-Passed disk b h final kept e =
      let download = download_part env client resp.image_id 0 0 in
      let (body, g, q, e1) =
        bind-returns (failing (codes "partition table download failed: ") download) _ h final e in
      let fetched = wrapped-returns _ download h g q in
      let (t, g1, q1, e2) =
        bind-returns (failing (codes "reading partition table: ") (read_all body)) _ g final e1 in
      let read = wrapped-returns _ (read_all body) g g1 q1 in
      let n = read_all-whole env client resp body g (ap (λ r. r.0) read) in
      let same =
        downloaded env client resp store serves drains 0 b body h kept (ap (λ r. r.0) fetched) n in
      let (t_b, stays) = table_read b t g g1 (rw same at read) in
      let done : Partition.restore env disk b g ≡ (ok tt, final) =
        rw (t_b, sym stays) at (wrapped-returns _ (Partition.restore env disk t) g1 final e2) in
      record {
        from = g;
        before =
            anything-until {Q = Any} download (download_part-Adds env client resp.image_id 0 0 tt)
              fetched;
        no_error = ap (λ r. r.0) done;
        behind = subst (λ x. Emits Any x final) (sym (ap (λ r. r.1) done)) nothing;
      }

  -- If the steps of `Deploy` return no error, then for each part from 1 to the number of parts that
  -- the server has, these steps had partclone restore exactly its bytes to the partition of that number
  -- on the disk that `Primary` chose, without an error; or the part is the sentinel of a swap partition,
  -- and they had mkswap succeed with its UUID; or it is a sentinel of another type, for which nothing is
  -- said. The conditions: a download that the server
  -- answers with a status of success has the part, unless it breaks off, and partclone reads all of its
  -- input.
  pub deploy_steps-Restored :
      (h : History) (disk : Bytes)
      → (deploy_steps env client resp h).0 ≡ ok tt
      → (Disk.primary env h).0 ≡ ok disk
      → (i : ℕ) → 1 ≤ i
      → i ≤ pos_part resp.part_count
      → (b : Bytes) → store i ≡ some b
      → Restored env (partition_device disk i) b h (deploy_steps env client resp h).1
  deploy_steps-Restored h disk e chosen i lo hi b kept =
      let d = deploy_steps-Deployed env client resp h e in
      let p = d.parts i lo hi in
      let same : d.disk ≡ disk = ok-injective (sym d.chosen ∙ chosen) in
      rw (sym same) (
        Restored-within p.before
          (try_part-Restored env client resp store serves drains d.disk b i p.from kept p.no_error)
          p.behind)

  -- Under the same conditions `partition.Restore` returned no error for part 0, as the server has it,
  -- on that disk.
  pub deploy_steps-Table :
      (h : History) (disk : Bytes)
      → (deploy_steps env client resp h).0 ≡ ok tt
      → (Disk.primary env h).0 ≡ ok disk
      → (b : Bytes) → store 0 ≡ some b
      → Passed (Partition.restore env disk b) h (deploy_steps env client resp h).1
  deploy_steps-Table h disk e chosen b kept =
      let d = deploy_steps-Deployed env client resp h e in
      let same : d.disk ≡ disk = ok-injective (sym d.chosen ∙ chosen) in
      let t = d.table in
      rw (sym same) (
        Passed-after t.before (
          Passed-until
            (deploy_table-Passed d.disk b t.from _ kept
              (returns (deploy_table env client resp d.disk) t.from t.no_error))
            t.behind))
