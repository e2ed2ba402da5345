-- ===== src/Shutdown/ExitCode.antt =====
-- When the process may say that it succeeded, and when it closes its file.
use evidra_agentgateway_brid.Prelude.{String, ◌≡◌, refl, ◌↔◌, Option, none, some, arith}
use evidra_agentgateway_brid.Shutdown.{
  Awaited, done, expired, exit_code, is_some, finalize_shutdown, stop_grpc, await_flush,
  flush_processor, is_flush_deadline, shutdown_services, shut_down,
}

-- Everything that drains did so in time and without an error.
abbrev pub IsClean :
    Option String → Awaited Unit → Option String → Awaited (Option String) → Option String → Type 0
IsClean http stopped ctx flushed close_output =
    (http ≡ none)
    × (stopped ≡ done tt)
    × (ctx ≡ none)
    × (flushed ≡ done none)
    × (close_output ≡ none)

exit_code-IsClean :
    (http : Option String) (stopped : Awaited Unit) (ctx : Option String)
    (flushed : Awaited (Option String)) (close_output : Option String)
    → exit_code (shut_down http stopped ctx flushed close_output).0 ≡ 0
    → IsClean http stopped ctx flushed close_output
unfolding exit_code is_some shut_down shutdown_services finalize_shutdown stop_grpc flush_processor
    await_flush is_flush_deadline
exit_code-IsClean (some x) stopped (some c) flushed close_output e = absurd (omega (arith, e))
exit_code-IsClean none stopped (some c) flushed close_output e = absurd (omega (arith, e))
exit_code-IsClean (some x) stopped none (expired c) close_output e = absurd (omega (arith, e))
exit_code-IsClean none stopped none (expired c) close_output e = absurd (omega (arith, e))
exit_code-IsClean (some x) stopped none (done (some c)) close_output e = absurd (omega (arith, e))
exit_code-IsClean none stopped none (done (some c)) close_output e = absurd (omega (arith, e))
exit_code-IsClean (some x) stopped none (done none) close_output e = absurd (omega (arith, e))
exit_code-IsClean none stopped none (done none) (some x) e = absurd (omega (arith, e))
exit_code-IsClean none (expired x) none (done none) none e = absurd (omega (arith, e))
exit_code-IsClean none (done u) none (done none) none e = (refl, refl, refl, refl, refl)

IsClean-exit_code :
    (http : Option String) (stopped : Awaited Unit) (ctx : Option String)
    (flushed : Awaited (Option String)) (close_output : Option String)
    → IsClean http stopped ctx flushed close_output
    → exit_code (shut_down http stopped ctx flushed close_output).0 ≡ 0
unfolding exit_code is_some shut_down shutdown_services finalize_shutdown stop_grpc flush_processor
    await_flush is_flush_deadline
IsClean-exit_code http stopped ctx flushed close_output (a, b, c, d, e) = rw (a, b, c, d, e) refl

-- The process exits with 0 exactly when the HTTP server shut down, the gRPC server stopped gracefully,
-- the flush began and ended before the deadline, and neither it nor closing the file failed.
pub exit_code-eq-zero_iff :
    (http : Option String) (stopped : Awaited Unit) (ctx : Option String)
    (flushed : Awaited (Option String)) (close_output : Option String)
    → (exit_code (shut_down http stopped ctx flushed close_output).0 ≡ 0) ↔ (
        (http ≡ none)
        × (stopped ≡ done tt)
        × (ctx ≡ none)
        × (flushed ≡ done none)
        × (close_output ≡ none))
exit_code-eq-zero_iff http stopped ctx flushed close_output = (
  exit_code-IsClean http stopped ctx flushed close_output,
  IsClean-exit_code http stopped ctx flushed close_output,
)
