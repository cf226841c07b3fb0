-- ===== src/Api/Logs/Forward/Posted.antt =====
-- What `drainLoop` of agent/internal/api/loghandler.go posts to the server.
use fos_next.Prelude.{
  ℕ, zero, suc, ◌*◌, ◌≤◌, true, List, [], ◌∷◌, ◌++◌, Option, none, some, Bytes, codes, ok, ◌≡◌,
  refl, sym, ◌∙◌, inl, inr, length, append-nil, Option-cases, Result-cases,
}
use fos_next.Wire.{LogEntry, Payload, handshake, register, progress, complete, image_meta, logs}
use fos_next.World.{
  sleep, call, http, Body, empty, json, stream, History, Env, pure, attempt, ask, lift, send, sys,
  match_option, match_result, ◌>>=◌,
}
use fos_next.Api.{Client, send_logs, do_post, post_request}
use fos_next.Api.Logs.{RemoteHandler, Batch, flush}
use fos_next.Api.Logs.Runs.{Run, step, run, batch_entries}
use fos_next.Api.Logs.Drain.{ticks, run-ticks}
use fos_next.Api.Logs.Forward.{report_flush, send_batch, send_flushed, flush_logs, drain_loop}

unfoldable pub entries_in : Payload → List LogEntry
entries_in (logs req) = req.entries
entries_in (handshake req) = []
entries_in (register req) = []
entries_in (progress req) = []
entries_in (complete req) = []
entries_in (image_meta req) = []

unfoldable pub entries_of : Body → List LogEntry
entries_of (json p) = entries_in p
entries_of empty = []
entries_of (stream s e) = []

-- the log entries in the requests of a history, oldest first
unfoldable pub posted : History → List LogEntry
posted [] = []
posted (call c ∷ h) = posted h
posted (http r ∷ h) = posted h ++ entries_of r.body

module _ (env : Env) (writer : Option Bytes) (now : History → Bytes) where
  report_flush-posted :
      (e : Bytes) (g : History)
      → ((report_flush env writer now e g).0 ≡ ok tt)
        × (posted (report_flush env writer now e g).1 ≡ posted g)
  unfolding report_flush match_option ◌>>=◌ ask sys pure posted
  report_flush-posted e g = elim (Option-cases writer) [
    | inl n ↦ rw n (refl, refl)
    | inr (w, s) ↦ rw s (refl, refl)
  ]

  send_batch-posted :
      (b : Batch) (g : History)
      → ((send_batch env writer now b g).0 ≡ ok tt)
        × (posted (send_batch env writer now b g).1 ≡ posted g ++ b.request.entries)
  unfolding send_batch ◌>>=◌ attempt match_result send_logs do_post send lift pure posted entries_of
      entries_in post_request
  send_batch-posted b g = elim (Result-cases (send_logs env b.client b.request g).0) [
    | inl (u, q) ↦ rw q (refl, refl)
    | inr (e, q) ↦
        let (done, same) =
          report_flush-posted e
            (http (post_request b.client (codes "/logs") (logs b.request) true) ∷ g) in
        rw q (done, same)
  ]

  send_flushed-posted :
      (h : RemoteHandler) (b : Option Batch) (g : History)
      → ((send_flushed env writer now (h, b) g).0 ≡ ok h)
        × (posted (send_flushed env writer now (h, b) g).1 ≡ posted g ++ batch_entries b)
  unfolding send_flushed match_option pure batch_entries ◌>>=◌
  send_flushed-posted h none g = (refl, sym (append-nil (posted g)))
  send_flushed-posted h (some b) g = let (done, p) = send_batch-posted b g in rw done (refl, p)

  flush_logs-posted :
      (h : RemoteHandler) (g : History)
      → ((flush_logs env writer now h g).0 ≡ ok (flush h).0)
        × (posted (flush_logs env writer now h g).1 ≡ posted g ++ batch_entries (flush h).1)
  unfolding flush_logs
  flush_logs-posted h g = send_flushed-posted (flush h).0 (flush h).1 g

  -- a handler in a run that has sent some entries
  abbrev pub as_run : RemoteHandler → List LogEntry → Run
  as_run h sent = record { handler = h; sent = sent; dropped = 0 }

  -- The ticks of `drainLoop` make the handler what the same flushes make it, and post what they send,
  -- whether or not the server accepts it.
  drain_loop-run :
      (n : ℕ) (h : RemoteHandler) (g : History)
      → ((drain_loop env writer now n h g).0 ≡ ok (run (ticks n) (as_run h (posted g))).handler)
        × (posted (drain_loop env writer now n h g).1 ≡ (run (ticks n) (as_run h (posted g))).sent)
  unfolding drain_loop run ticks step pure ◌>>=◌ sys posted
  drain_loop-run zero h g = (refl, refl)
  drain_loop-run (suc n) h g =
      let (q, p) = flush_logs-posted h (call (sleep 1000) ∷ g) in
      let next = (flush_logs env writer now h (call (sleep 1000) ∷ g)).1 in
      rw q (rw p at (drain_loop-run n (flush h).0 next))

  -- Where nothing else is logged, the ticks of `drainLoop` on a connected handler post each entry that
  -- it holds exactly once, in the order of logging and behind what was posted before, if there is one
  -- tick for each 100 entries or part of it, and leave the buffer empty; also where the server refuses
  -- requests or cannot be reached.
  pub drain_loop-posted :
      (n : ℕ) (h : RemoteHandler) (c : Client) (g : History)
      → h.client ≡ some c
      → length h.buf ≤ n * 100
      → (h' : RemoteHandler) × ((drain_loop env writer now n h g).0 ≡ ok h')
        × (h'.buf ≡ [])
        × (posted (drain_loop env writer now n h g).1 ≡ posted g ++ h.buf)
  drain_loop-posted n h c g e le =
      let (done, p) = drain_loop-run n h g in
      let (empty_now, sent) = run-ticks n (as_run h (posted g)) c e le in
      ((run (ticks n) (as_run h (posted g))).handler, done, empty_now, p ∙ sent)
