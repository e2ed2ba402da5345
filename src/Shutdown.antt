-- ===== src/Shutdown.antt =====
-- cmd/bridge/main.go: how the process drains and what it exits with. The servers, the processor and the
-- clock are what they answer: `ctx` is what `ctx.Err()` gives when the flush would start, and a choice
-- of `select` that may fall either way is an argument.
pub mod ExitCode
use evidra_agentgateway_brid.Prelude.{
  ℕ, String, Bool, true, false, ◌||◌, not, Option, none, some, if◌then◌else◌,
}
use evidra_agentgateway_brid.Text.{◌⧺◌}

-- The error of `flushProcessor`: one that wraps `errFlushDeadline`, or the processor's own.
pub data FlushError : Type 0 where
  flush_deadline : String → FlushError
  flush_failed : String → FlushError

pub record ShutdownResult : Type 0 where
  pub http_err : Option String
  pub flush_err : Option FlushError
  pub close_err : Option String
  pub grpc_forced : Bool
  pub flush_timed_out : Bool

-- What `select` saw of a graceful stop or a flush: it was done, or the deadline came.
pub data Awaited (A : Type 0) : Type 0 where
  done : A → Awaited A
  expired : String → Awaited A

unfoldable pub is_some : {A : Type 0} → Option A → Bool
is_some none = false
is_some (some a) = true

unfoldable pub exit_code : ShutdownResult → ℕ
unfolding is_some
exit_code r =
    if is_some r.http_err || is_some r.flush_err || is_some r.close_err || r.grpc_forced
    then 1
    else 0

-- `closeOutput`, and whether it was called.
unfoldable pub finalize_shutdown : Option String → ShutdownResult → ShutdownResult × Bool
finalize_shutdown close_output r =
    if r.flush_timed_out then (r, false) else (record r { close_err = close_output }, true)

unfoldable pub stop_grpc : Awaited Unit → Bool
stop_grpc (done u) = false
stop_grpc (expired e) = true

-- `select` of `flushProcessor`
unfoldable pub await_flush : Awaited (Option String) → Option FlushError
await_flush (done none) = none
await_flush (done (some e)) = some (flush_failed e)
await_flush (expired e) = some (flush_deadline e)

unfoldable pub flush_processor : Option String → Awaited (Option String) → Option FlushError
unfolding await_flush
flush_processor (some e) flushed = some (flush_deadline e)
flush_processor none flushed = await_flush flushed

-- `errors.Is(result.flushErr, errFlushDeadline)`
unfoldable pub is_flush_deadline : Option FlushError → Bool
is_flush_deadline none = false
is_flush_deadline (some (flush_deadline e)) = true
is_flush_deadline (some (flush_failed e)) = false

unfoldable pub shutdown_services :
    Option String → Awaited Unit → Option String → Awaited (Option String) → ShutdownResult
unfolding stop_grpc flush_processor is_flush_deadline
shutdown_services http stopped ctx flushed =
    let flush_err = flush_processor ctx flushed in
    record {
      http_err = http;
      flush_err = flush_err;
      close_err = none;
      grpc_forced = stop_grpc stopped;
      flush_timed_out = is_flush_deadline flush_err;
    }

-- The end of `run`: drain, close the sink unless the flush timed out.
unfoldable pub shut_down :
    Option String
    → Awaited Unit
    → Option String
    → Awaited (Option String)
    → Option String
    → ShutdownResult × Bool
unfolding shutdown_services finalize_shutdown
shut_down http stopped ctx flushed close_output =
    finalize_shutdown close_output (shutdown_services http stopped ctx flushed)
