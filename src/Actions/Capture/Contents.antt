-- ===== src/Actions/Capture/Contents.antt =====
-- What the uploads of `Capture` of agent/internal/actions/actions.go hold.
use fos_next.Prelude.{
  ℕ, ℤ, Bool, false, List, ◌∷◌, Option, none, some, Bytes, codes, Result, ok, ◌≡◌, ap, subst, inl,
  inr, Bool-cases,
}
use fos_next.Strings.{equal}
use fos_next.Wire.{HandshakeResponse}
use fos_next.World.{
  wait_exit, Reply, http, stream, History, Env, Act, pure, fail, lift, send, match_option, branch,
  ◌>>=◌, ◌>>◌,
}
use fos_next.World.Adds.{Emits, Emits-trans, nothing, event, Adds, Adds-branch, Adds-pure}
use fos_next.World.Ran.{Any}
use fos_next.World.Ran.{Ran, Ran-within, anything, Ran-now}
use fos_next.World.Gives.{bind-eq-ok, wrapped-eq-ok, ok-injective, match_option-eq-ok}
use fos_next.Api.{Client, upload_part, upload_request}
use fos_next.Imaging.{clone, clone_command}
use fos_next.Actions.Parts.{failing, progress_fn, detect_filesystem, read_partition_uuid}
use fos_next.Actions.Parts.Events.{progress_fn-Adds, detect_filesystem-Adds}
use fos_next.Actions.Capture.Calls.{refuse_bitlocker-Adds, prepare-Adds}
use fos_next.Actions.Capture.Kept.{kept, kept-upload}
use fos_next.Actions.Capture.{
  upload_sentinel, upload_image, refuse_bitlocker, note_fixed, capture_part,
}
use fos_next.Actions.Capture.Clones.{
  Content, Content-within, image, swap, uuid_of, uuid_call, read_partition_uuid-eq, clone-Ran,
}

module _ (env : Env) (client : Client) (resp : HandshakeResponse) where
  reports : (pct bpm : ℤ) → Adds Any (progress_fn env client resp pct bpm)
  reports = progress_fn-Adds env (λ c. tt) client resp (λ pct bpm. tt)

  -- The part has been uploaded whole, with the content of a device.
  pub record Uploaded (n : ℕ) (dev : Bytes) (start final : History) : Type 0 where
    pub bytes : Bytes
    pub stored : kept client resp.image_id n final ≡ some bytes
    pub content : Content env dev bytes start final

  pub Uploaded-since :
      {n : ℕ} {dev : Bytes} {start h final : History}
      → Emits Any start h
      → Uploaded n dev h final
      → Uploaded n dev start final
  Uploaded-since e u = record {
    bytes = u.bytes;
    stored = u.stored;
    content = Content-within e u.content nothing;
  }

  pub uploaded :
      (n : ℕ) (context b : Bytes) (f : Option Bytes) (h : History) {v : Unit {0}}
      → (failing context (upload_part env client resp.image_id n (stream b f)) h).0 ≡ ok v
      → (failing context (upload_part env client resp.image_id n (stream b f)) h).1
        ≡ http (upload_request client resp.image_id n (stream b f)) ∷ h
  unfolding failing upload_part ◌>>=◌ send lift
  uploaded n context b f h e =
      (wrapped-eq-ok context (upload_part env client resp.image_id n (stream b f)) h e).1

  send_cloned-Uploaded :
      (n : ℕ) (dev fs : Bytes) (r : Reply) (context : Bytes) (because : Bytes → Bytes)
      (h g : History)
      → (r.fault ≡ none → Ran env (wait_exit (clone_command env dev fs)) r h g)
      → ((failing context (upload_part env client resp.image_id n (stream r.out r.fault))
            >> match_option r.fault (λ x. fail (because x)) (pure tt))
          g).0
        ≡ ok tt
      → Uploaded n dev h
          ((failing context (upload_part env client resp.image_id n (stream r.out r.fault))
              >> match_option r.fault (λ x. fail (because x)) (pure tt))
            g).1
  send_cloned-Uploaded n dev fs r context because h g ran e =
      let (u, p, w) =
        bind-eq-ok (failing context (upload_part env client resp.image_id n (stream r.out r.fault)))
          _ g e in
      let (fine, stays) = match_option-eq-ok r.fault because _ (rw w at e) in
      let final = uploaded n context r.out r.fault g p in
      let whole : Ran env (wait_exit (clone_command env dev fs))
          (record { out = r.out; fault = none }) h g =
        subst
          (λ f.
            Ran env (wait_exit (clone_command env dev fs)) (record { out = r.out; fault = f }) h g)
          fine (ran fine) in
      rw (w, stays, final)
        (record {
          bytes = r.out;
          stored = rw fine (kept-upload client resp.image_id n r.out g);
          content = image fs (Ran-within nothing whole (event tt nothing));
        })

  upload_image-Uploaded :
      (n : ℕ) (dev fs : Bytes) (h : History)
      → (upload_image env client resp n dev fs h).0 ≡ ok tt
      → Uploaded n dev h (upload_image env client resp n dev fs h).1
  unfolding upload_image
  upload_image-Uploaded n dev fs h e =
      let (r, q, w) = bind-eq-ok (clone env dev fs (progress_fn env client resp)) _ h e in
      rw w (
        send_cloned-Uploaded n dev fs r _ _ _ _ (λ f. clone-Ran env _ reports dev fs r h q f)
          (rw w at e))

  upload_sentinel-Uploaded :
      (n : ℕ) (dev : Bytes) (h : History)
      → (upload_sentinel env client resp n dev h).0 ≡ ok tt
      → Uploaded n dev h (upload_sentinel env client resp n dev h).1
  unfolding upload_sentinel
  upload_sentinel-Uploaded n dev h e =
      let (uuid, q, w) = bind-eq-ok (read_partition_uuid env dev) _ h e in
      let same : uuid_of (env.answer h (uuid_call dev)) ≡ uuid =
        ok-injective (rw (read_partition_uuid-eq env dev h) at q) in
      let asked = ap (λ (x : Result Bytes × History). x.1) (read_partition_uuid-eq env dev h) in
      let final = uploaded n _ _ none _ (rw w at e) in
      rw (w, final)
        (record {
          bytes = env.codec.marshal_meta (record { type = codes "swap"; uuid = uuid });
          stored = kept-upload client resp.image_id n _ (read_partition_uuid env dev h).1;
          content =
              swap (env.answer h (uuid_call dev))
                (rw asked (Ran-within nothing (Ran-now (uuid_call dev) h) (event tt nothing)))
                (ap (λ u. env.codec.marshal_meta (record { type = codes "swap"; uuid = u })) same);
        })

  sentinel-Uploaded :
      (n : ℕ) (dev : Bytes) (fixed more : List ℕ) (h : History)
      → ((upload_sentinel env client resp n dev >> pure fixed) h).0 ≡ ok more
      → Uploaded n dev h ((upload_sentinel env client resp n dev >> pure fixed) h).1
  unfolding pure
  sentinel-Uploaded n dev fixed more h e =
      let (_, q, w) = bind-eq-ok (upload_sentinel env client resp n dev) _ h e in
      rw w (upload_sentinel-Uploaded n dev h q)

  image-Uploaded :
      (n : ℕ) (dev fs : Bytes) (m : Act Bool) (fixed more : List ℕ) (h : History)
      → Adds Any m
      → ((m >>= λ full. upload_image env client resp n dev fs >> pure (note_fixed full fixed n))
          h).0
        ≡ ok more
      → Uploaded n dev h
          ((m >>= λ full. upload_image env client resp n dev fs >> pure (note_fixed full fixed n))
            h).1
  unfolding pure
  image-Uploaded n dev fs m fixed more h k e =
      let (full, _, w) = bind-eq-ok m _ h e in
      let (_, q, w1) = bind-eq-ok (upload_image env client resp n dev fs) _ (m h).1 (rw w at e) in
      rw (w, w1) (Uploaded-since (anything m h k) (upload_image-Uploaded n dev fs (m h).1 q))

  -- what is asked about a partition before it is read
  pub guard_since :
      (n : ℕ) (dev fs : Bytes) (h : History)
      → Emits Any h (refuse_bitlocker env client resp n dev fs (detect_filesystem env dev h).1).1
  guard_since n dev fs h =
      Emits-trans (anything {Q = Any} _ h (detect_filesystem-Adds env (λ c. tt) dev))
        (anything {Q = Any} _ _ (refuse_bitlocker-Adds env client resp (λ c. tt) reports n dev fs))

  -- A round that returned no error has uploaded the device under the number.
  pub capture_part-Uploaded :
      (n : ℕ) (dev : Bytes) (fixed more : List ℕ) (h : History)
      → (capture_part env client resp n dev fixed h).0 ≡ ok more
      → Uploaded n dev h (capture_part env client resp n dev fixed h).1
  unfolding capture_part branch
  capture_part-Uploaded n dev fixed more h e =
      let (fs, _, w) = bind-eq-ok (detect_filesystem env dev) _ h e in
      let g = (detect_filesystem env dev h).1 in
      let (_, _, w1) = bind-eq-ok (refuse_bitlocker env client resp n dev fs) _ g (rw w at e) in
      let e2 = rw w1 at (rw w at e) in
      let since = guard_since n dev fs h in
      let prepared = prepare-Adds env client resp (λ c. tt) reports dev fs in
      elim (Bool-cases (equal fs (codes "swap"))) [
        | inl y ↦
            rw (w, w1, y) (Uploaded-since since (sentinel-Uploaded n dev fixed more _ (rw y at e2)))
        | inr o ↦
            rw (w, w1, o)
              (Uploaded-since since (
                image-Uploaded n dev fs _ fixed more _
                  (Adds-branch _ _ _ prepared (Adds-pure false)) (rw o at e2)))
      ]
