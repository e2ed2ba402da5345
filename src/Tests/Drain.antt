-- ===== src/Tests/Drain.antt =====
-- Shutdown.
use evidra_agentgateway_brid.Prelude.{◌≡◌, ◌↔◌, refl, String, false, Option, none, some}
use evidra_agentgateway_brid.Shutdown.{
  Awaited, done, expired, exit_code, is_some, finalize_shutdown, stop_grpc, await_flush,
  flush_processor, is_flush_deadline, shutdown_services, shut_down,
}
use evidra_agentgateway_brid.Shutdown.ExitCode.{exit_code-eq-zero_iff}

-- A flush that misses the deadline: the file is not closed, and the process fails.
late_flush :
    ((shut_down none (done tt) none (expired "deadline") none).1 ≡ false)
    × (exit_code (shut_down none (done tt) none (expired "deadline") none).0 ≡ 1)
unfolding exit_code is_some shut_down shutdown_services finalize_shutdown stop_grpc flush_processor
    await_flush is_flush_deadline
late_flush = (refl, refl)

exit_code-eq-zero_iff_example :
    (exit_code (shut_down none (done tt) none (done (some "disk full")) none).0 ≡ 0) ↔ (
      (Path (Option String) none none)
      × (Path (Awaited Unit) (done tt) (done tt))
      × (Path (Option String) none none)
      × (Path (Awaited (Option String)) (done (some "disk full")) (done none))
      × (Path (Option String) none none))
exit_code-eq-zero_iff_example =
    exit_code-eq-zero_iff none (done tt) none (done (some "disk full")) none
