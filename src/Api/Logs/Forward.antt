-- ===== src/Api/Logs/Forward.antt =====
-- `flush` and `drainLoop` of agent/internal/api/loghandler.go with their requests. `writer` is where
-- `delegateWriter` finds the delegate to write, if it does, and `now` the time that it prints.
pub mod Posted
use fos_next.Prelude.{ℕ, zero, suc, List, [], ◌∷◌, ◌++◌, Option, none, some, Bytes, codes}
use fos_next.World.{
  Syscall, write, sleep, History, Env, Act, pure, attempt, ask, sys, match_option, match_result,
  ◌>>=◌, ◌>>◌,
}
use fos_next.Api.{send_logs}
use fos_next.Api.Logs.{RemoteHandler, Batch, flush}

module _ (env : Env) (writer : Option Bytes) (now : History → Bytes) where
  -- the line about a request that failed; without a writer it goes nowhere
  unfoldable pub report_flush : Bytes → Act (Unit {0})
  report_flush e =
      match_option writer
        (λ path. do
          time ← ask now
          sys env (
              write path (
                codes "time="
                ++ time
                ++ codes " level=WARN msg=\"remote log flush failed\" err="
                ++ e
                ++ codes "\n"))
          pure tt)
        (pure tt)

  -- a batch that is refused is not put back
  unfoldable pub send_batch : Batch → Act (Unit {0})
  send_batch b = do
    sent ← attempt (send_logs env b.client b.request)
    match_result sent (λ _. pure tt) report_flush

  unfoldable pub send_flushed : RemoteHandler × Option Batch → Act RemoteHandler
  send_flushed (h, batch) = match_option batch send_batch (pure tt) >> pure h

  -- `flush`
  unfoldable pub flush_logs : RemoteHandler → Act RemoteHandler
  flush_logs h = send_flushed (flush h)

  -- the first ticks of `drainLoop`, a second apart, while nothing is logged
  unfoldable pub drain_loop : ℕ → RemoteHandler → Act RemoteHandler
  drain_loop zero h = pure h
  drain_loop (suc ticks) h = do sys env (sleep 1000); h' ← flush_logs h; drain_loop ticks h'
