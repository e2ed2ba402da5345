-- ===== src/Startup.antt =====
-- `run` of cmd/bridge/main.go: the flag, the configuration, the sink, the listeners, the requests that
-- are served until a signal comes, and the drain. What is only logged is left out.
pub mod Whole
pub mod Delivery
use evidra_agentgateway_brid.Prelude.{
  ℕ, String, Bool, true, false, ◌⊎◌, inl, inr, Option, none, some, List, [], ◌∷◌, ◌==◌,
  if◌then◌else◌,
}
use evidra_agentgateway_brid.Prelude.Int.{ℤ}
use evidra_agentgateway_brid.Text.{◌⧺◌}
use evidra_agentgateway_brid.Telemetry.{Floats}
use evidra_agentgateway_brid.Config.{Config, load_config}
use evidra_agentgateway_brid.Sink.{Jsonl, close_jsonl}
use evidra_agentgateway_brid.Sink.Opening.{FileSystem, new_jsonl}
use evidra_agentgateway_brid.Service.{Service, new_service, flush_all}
use evidra_agentgateway_brid.Server.{Platform, Running, Request, called, serve_requests}
use evidra_agentgateway_brid.Shutdown.{Awaited, done, expired, exit_code, shut_down}

-- `version.Version`
abbrev pub version : String
version = "dev"

-- How the process ends: it has printed its version, it was stopped by `log.Fatalf` with this message,
-- or it has drained with this exit code. A flush that is cut off by the deadline leaves the service at
-- a point that is open (`none`).
pub data Ended (C F K : Type 0) : Type 0 where
  printed : String → Ended C F K
  fatal : String → Ended C F K
  drained : ℕ → Option (Running C F K) → Ended C F K

-- What the drain meets: the error of the HTTP server, the graceful stop of the gRPC server, what
-- `ctx.Err()` gives in front of the flush, and the error of the context if the deadline comes before
-- the flush has ended.
pub record Drain : Type 0 where
  pub http_err : Option String
  pub stopped : Awaited Unit
  pub ctx : Option String
  pub late : Option String

unfoldable pub asks_version : List String → Bool
asks_version [] = false
asks_version (a ∷ []) = a == "--version"
asks_version (a ∷ b ∷ rest) = false

module _ (floats : Floats) (quote : String → String) {C F K : Type 0}
    (platform : Platform (floats.Double) C F K) where
  open floats use {Double}
  open platform use {file, visit}

  -- The exit code, where the sink of this service is closed unless the flush timed out.
  unfoldable pub code_of : Drain → Option String → Awaited (Option String) → Running C F K → ℕ
  code_of d ctx flushed s =
      exit_code
        (shut_down d.http_err d.stopped ctx flushed
          (close_jsonl file platform.decimal s.service.sink.out).0).0

  -- The final flush.
  unfoldable pub flush_last : Running C F K → Option String × Running C F K
  unfolding called
  flush_last s =
      let (order, k) = visit s.service.processor.active.spans s.clock in
      called floats quote platform (flush_all order) k s.service

  -- The drain, by the error of the context in front of the flush and by the deadline.
  unfoldable pub drain_by : Option String → Option String → Drain → Running C F K → Ended C F K
  unfolding flush_last code_of
  drain_by (some e) late d s = drained (code_of d (some e) (expired e) s) (some s)
  drain_by none (some e) d s = drained (code_of d none (expired e) s) none
  drain_by none none d s =
      let o = flush_last s in drained (code_of d none (done o.0) o.1) (some o.1)

  -- The first processor, with the sink that was opened.
  unfoldable pub first_service : Config → Jsonl F → C → K → Running C F K
  first_service config out contexts clock = record {
    service =
        new_service config.merge_wait config.observer_id config.observer_version
          (record { contexts = contexts; out = out });
    clock = clock;
  }

  -- The servers run until the signal comes, or the HTTP server fails.
  unfoldable pub run_serving : Option String → Drain → Running C F K → Ended C F K
  unfolding drain_by
  run_serving (some e) d s = fatal ("http serve: " ⧺ e)
  run_serving none d s = drain_by d.ctx d.late d s

  module _ (requests : List (Request Double)) (http_failed : Option String) (d : Drain)
      (contexts : C) (clock : K) where
    -- Behind `net.Listen` for the gRPC server.
    unfoldable pub run_listening : Config → Option String → Jsonl F → Ended C F K
    unfolding run_serving first_service
    run_listening config (some e) out =
        fatal ("gRPC listen " ⧺ (config.grpc_listen_addr ⧺ (": " ⧺ e)))
    run_listening config none out =
        run_serving http_failed d
          (serve_requests floats quote platform requests
            (first_service config out contexts clock)).1

    -- Behind `sink.NewJSONL`.
    unfoldable pub run_opened : (String → Option String) → Config → String ⊎ Jsonl F → Ended C F K
    unfolding run_listening
    run_opened listen config (inl e) = fatal ("observations sink: " ⧺ e)
    run_opened listen config (inr out) = run_listening config (listen config.grpc_listen_addr) out

    -- `run`, where `listen` is `net.Listen`.
    unfoldable pub run :
        {W : Type 0}
        → FileSystem W F
        → (String → String)
        → (String → Option ℤ)
        → (String → Option String)
        → List String
        → W
        → Ended C F K × W
    unfolding run_opened
    run fs getenv parse_duration listen args w =
        let config = load_config getenv parse_duration in
        let o = new_jsonl fs config.observations_path w in
        if asks_version args
        then (printed ("evidra-agentgateway " ⧺ (version ⧺ "\n")), w)
        else (run_opened listen config o.0, o.1)
