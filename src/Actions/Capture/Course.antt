-- ===== src/Actions/Capture/Course.antt =====
-- The course of the steps of `Capture` of agent/internal/actions/actions.go that return no error.
use fos_next.Prelude.{
  ℕ, List, [], ◌∷◌, none, Bytes, codes, Result, ok, if◌then◌else◌, length, ◌≡◌, refl, ◌∙◌, ap, sym,
}
use fos_next.Wire.{HandshakeResponse, ImageMetaRequest}
use fos_next.World.{http, stream, History, Env, attempt, pure, Act}
use fos_next.World.Gives.{bind-returns, wrapped-returns}
use fos_next.Api.{Client, upload_part, upload_request, set_image_meta}
use fos_next.Disk
use fos_next.Disk.{discover_partitions}
use fos_next.Partition
use fos_next.Actions.Parts.{failing}
use fos_next.Actions.Deploy.{is_resizable}
use fos_next.Actions.Capture.{capture_parts, capture_steps}
use fos_next.Actions.Capture.Contents.{uploaded}

-- What the steps did from `h` to `final`, and the histories between them.
pub record Course (env : Env) (client : Client) (resp : HandshakeResponse) (h final : History)
    : Type 0 where
  pub disk : Bytes
  pub start : History
  pub chosen : Disk.primary env h ≡ (ok disk, start)
  pub table : Bytes
  pub copied : History
  pub backed_up : Partition.backup env disk start ≡ (ok table, copied)
  pub parts : List Bytes
  pub listed : History
  pub found :
      discover_partitions env disk
        (http (upload_request client resp.image_id 0 (stream table none)) ∷ copied)
      ≡ (ok parts, listed)
  pub fixed : List ℕ
  pub captured : History
  pub looped : capture_parts env client resp parts 1 [] listed ≡ (ok fixed, captured)
  pub meta : ImageMetaRequest
  pub meta_fixed : meta.fixed_size_partitions ≡ fixed
  pub meta_count : meta.part_count ≡ length parts
  pub meta_image : meta.image_id ≡ resp.image_id
  pub described : (set_image_meta env client meta captured).1 ≡ final

attempted :
    {A : Type 0} (m : Act A) (h last final : History) {r : Result A}
    → attempt m h ≡ (ok r, last)
    → pure tt last ≡ (ok tt, final)
    → (m h).1 ≡ final
unfolding attempt pure
attempted m h last final e e' = ap (λ r. r.1) e ∙ ap (λ r. r.1) e'

module _ (env : Env) (client : Client) (resp : HandshakeResponse) where
  abbrev described_as : List Bytes → List ℕ → ImageMetaRequest
  described_as parts fixed = record {
    task_id = resp.task_id;
    image_id = resp.image_id;
    image_type = if is_resizable resp then codes "resizable" else codes "fixed";
    fixed_size_partitions = fixed;
    part_count = length parts;
  }

  pub capture_steps-Course :
      (h final : History)
      → capture_steps env client resp h ≡ (ok tt, final)
      → Course env client resp h final
  unfolding capture_steps failing
  capture_steps-Course h final e =
      let (disk, start, q, e1) =
        bind-returns (failing (codes "disk detection failed: ") (Disk.primary env)) _ h final e in
      let (table, copied, q1, e2) =
        bind-returns (failing (codes "partition table backup failed: ") (Partition.backup env disk))
          _ start final e1 in
      let (_, sent, q2, e3) =
        bind-returns
          (failing (codes "partition table upload failed: ")
            (upload_part env client resp.image_id 0 (stream table none)))
          _ copied final e2 in
      let (parts, listed, q3, e4) = bind-returns (discover_partitions env disk) _ sent final e3 in
      let (fixed, captured, q4, e5) =
        bind-returns (capture_parts env client resp parts 1 []) _ listed final e4 in
      let (_, last, q5, e6) =
        bind-returns (attempt (set_image_meta env client (described_as parts fixed))) _ captured
          final e5 in
      let uploaded_table =
        sym (uploaded env client resp 0 _ table none copied (ap (λ r. r.0) q2))
        ∙ ap (λ r. r.1) q2 in
      record {
        disk = disk;
        start = start;
        chosen = wrapped-returns _ (Disk.primary env) h start q;
        table = table;
        copied = copied;
        backed_up = wrapped-returns _ (Partition.backup env disk) start copied q1;
        parts = parts;
        listed = listed;
        found = rw uploaded_table q3;
        fixed = fixed;
        captured = captured;
        looped = q4;
        meta = described_as parts fixed;
        meta_fixed = refl;
        meta_count = refl;
        meta_image = refl;
        described =
            attempted (set_image_meta env client (described_as parts fixed)) captured last final q5
              e6;
      }
