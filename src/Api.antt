-- ===== src/Api.antt =====
-- agent/internal/api/client.go: the client of the boot API. A URL that does not parse, which
-- `http.NewRequestWithContext` refuses, counts as a request that fails to be sent.
pub mod Retry
pub mod Auth
pub mod Logs
use fos_next.Prelude.{
  ℕ, zero, suc, ◌+◌, ◌*◌, Bool, true, false, not, ◌&&◌, ◌||◌, List, [], ◌∷◌, ◌++◌, Option, none,
  some, Bytes, codes, ltb, leb, ◌==◌, if◌then◌else◌, Result, ok, err,
}
use fos_next.Strconv.{itoa}
use fos_next.Wire.{
  HandshakeRequest, HandshakeResponse, RegisterRequest, ProgressRequest, CompleteRequest,
  ImageMetaRequest, SendLogsRequest, Payload, handshake, register, progress, complete, image_meta,
  logs,
}
use fos_next.World.{
  Syscall, sleep, Reply, Body, empty, json, stream, Request, Response, failed, replied, Env, Act,
  pure, fail, attempt, lift, ask, ◌>>=◌, ◌>>◌, sys, send, match_option, match_result, branch,
}

-- `Client`; the two `http.Client` values are the field `streaming` of a request
pub record Client : Type 0 where
  pub base : Bytes
  pub token : Bytes

-- `New`
unfoldable pub new : Bytes → Client
new base_url = record { base = base_url ++ codes "/fog/api/v1/boot"; token = [] }

abbrev pub authorization : Client → Bytes × Bytes
authorization c = (codes "Authorization", codes "Bearer " ++ c.token)

-- The request that `doPost` builds.
unfoldable pub post_request : Client → Bytes → Payload → Bool → Request
post_request c path body auth = record {
  streaming = false;
  method = codes "POST";
  url = c.base ++ path;
  headers =
      (codes "Content-Type", codes "application/json")
      ∷ (if auth then authorization c ∷ [] else []);
  body = json body;
}

-- The request that `DownloadPart` builds.
unfoldable pub download_request : Client → Bytes → ℕ → ℕ → Request
download_request c image_id part range_start = record {
  streaming = true;
  method = codes "GET";
  url = c.base ++ codes "/images/" ++ image_id ++ codes "/download?part=" ++ itoa part;
  headers =
      authorization c
      ∷ (if ltb 0 range_start
          then (codes "Range", codes "bytes=" ++ itoa range_start ++ codes "-") ∷ []
          else []);
  body = empty;
}

-- The request that `UploadPart` builds.
unfoldable pub upload_request : Client → Bytes → ℕ → Body → Request
upload_request c image_id part body = record {
  streaming = true;
  method = codes "PUT";
  url = c.base ++ codes "/images/" ++ image_id ++ codes "/upload?part=" ++ itoa part;
  headers = authorization c ∷ (codes "Content-Type", codes "application/octet-stream") ∷ [];
  body = body;
}

-- The JSON decoder's result; where the value is cut short, the body's own error is reported.
decoded : {A : Type 0} → Result A → Option Bytes → Result A
decoded (ok a) e = ok a
decoded (err e) none = err e
decoded (err e) (some broken) = err broken

-- What `doPost` makes of the response.
unfoldable pub post_response : {A : Type 0} → Bytes → (Bytes → Result A) → Response → Result A
unfolding decoded
post_response path out (failed e) = err e
post_response path out (replied code status body) =
    if leb 400 code
    then err (codes "POST " ++ path ++ codes ": server returned " ++ status)
    else decoded (out body.out) body.fault

-- `out == nil`: nothing is decoded
abbrev pub no_out : Bytes → Result (Unit {0})
no_out _ = ok tt

unfoldable pub download_response : ℕ → Response → Result Reply
download_response part (failed e) = err e
download_response part (replied code status body) =
    if not (code == 200) && not (code == 206)
    then err (codes "download part " ++ itoa part ++ codes ": server returned " ++ status)
    else ok body

unfoldable pub upload_response : ℕ → Response → Result (Unit {0})
upload_response part (failed e) = err e
upload_response part (replied code status body) =
    if not (code == 200) && not (code == 204)
    then err (codes "upload part " ++ itoa part ++ codes ": server returned " ++ status)
    else ok tt

-- `attempt >= 5`
unfoldable pub is_spent : ℕ → Bool
is_spent tries = leb 5 tries

module _ (env : Env) where
  unfoldable pub do_post :
      {A : Type 0} → Client → Bytes → Payload → Bool → (Bytes → Result A) → Act A
  do_post c path body auth out = do
    resp ← send env (post_request c path body auth)
    lift (post_response path out resp)

  -- `select` on `ctx.Done()` and `time.After(backoff)`, in milliseconds
  unfoldable pub wait : ℕ → Act (Unit {0})
  wait backoff = do
    done ← ask env.cancelled
    match_option done fail (sys env (sleep backoff) >> pure tt)

  -- The loop of `post` around one call of `doPost`; five rounds of fuel are enough, since the fifth
  -- failure returns.
  unfoldable pub post_loop : {A : Type 0} → Act A → ℕ → ℕ → ℕ → Act A
  post_loop m zero tries backoff = fail (codes "out of fuel")
  post_loop m (suc f) tries backoff = do
    r ← attempt m
    match_result r pure (λ e.
        branch (is_spent (tries + 1)) (fail e)
          (wait backoff >> post_loop m f (tries + 1) (backoff * 2)))

  unfoldable pub post : {A : Type 0} → Client → Bytes → Payload → Bool → (Bytes → Result A) → Act A
  post c path body auth out = post_loop (do_post c path body auth out) 5 0 2000

  -- `Handshake`: the response, and the client with its token set
  unfoldable pub shake_hands : Client → HandshakeRequest → Act (HandshakeResponse × Client)
  shake_hands c req = do
    resp ← post c (codes "/handshake") (handshake req) false env.codec.decode_handshake
    pure (resp, record c { token = resp.boot_token })

  unfoldable pub send_register : Client → RegisterRequest → Act (Unit {0})
  send_register c req = post c (codes "/register") (register req) false no_out

  unfoldable pub report_progress : Client → ProgressRequest → Act (Unit {0})
  report_progress c req = post c (codes "/progress") (progress req) true no_out

  unfoldable pub set_image_meta : Client → ImageMetaRequest → Act (Unit {0})
  set_image_meta c req = post c (codes "/images/meta") (image_meta req) true no_out

  unfoldable pub send_complete : Client → CompleteRequest → Act (Unit {0})
  send_complete c req = post c (codes "/complete") (complete req) true no_out

  unfoldable pub send_logs : Client → SendLogsRequest → Act (Unit {0})
  send_logs c req = do_post c (codes "/logs") (logs req) true no_out

  unfoldable pub download_part : Client → Bytes → ℕ → ℕ → Act Reply
  download_part c image_id part range_start = do
    resp ← send env (download_request c image_id part range_start)
    lift (download_response part resp)

  unfoldable pub upload_part : Client → Bytes → ℕ → Body → Act (Unit {0})
  upload_part c image_id part body = do
    resp ← send env (upload_request c image_id part body)
    lift (upload_response part resp)
