-- ===== src/Service.antt =====
-- cmd/bridge/main.go: `run` gives the processor the JSONL sink, and both OTLP servers the processor.
-- A series of exports and flushes, served one after the other.
pub mod Sinks
pub mod History
pub mod Files
pub mod Orderly
pub mod Delivered
use evidra_agentgateway_brid.Prelude.{ℕ, String, ◌⊎◌, Option, some, List, [], ◌∷◌}
use evidra_agentgateway_brid.Prelude.Int.{ℤ}
use evidra_agentgateway_brid.Observation.{Time, Execution}
use evidra_agentgateway_brid.Telemetry.{Floats, LogRecord, Span}
use evidra_agentgateway_brid.Bridge.State.{Processor, new_processor, set_observer}
use evidra_agentgateway_brid.Bridge.Processor.{Sink, Outcome, flush}
use evidra_agentgateway_brid.Bridge.Consume.{consume_log_records, consume_spans}
use evidra_agentgateway_brid.Sink.{Bytes, JsonlFile, Jsonl, write_jsonl}

-- The sink's state with the contexts that its callers hand over: `ctx_err` is what the next
-- `ctx.Err()` gives.
pub record SinkState (C F : Type 0) : Type 0 where
  pub contexts : C
  pub out : Jsonl F

module _ {C F : Type 0} (file : JsonlFile F) (decimal : ℕ → String)
    (marshal : Execution → String ⊎ Bytes) (ctx_err : C → Option String × C) where
  -- `JSONL` as the processor's `Sink`.
  unfoldable pub write_sink : SinkState C F → Execution → Option String × SinkState C F
  write_sink s ex =
      let (before, c) = ctx_err s.contexts in
      let (locked, d) = ctx_err c in
      let o =
        write_jsonl file decimal marshal
          (record { ex = ex; ctx_err = before; ctx_err_locked = locked }) s.out in
      (o.0, record { contexts = d; out = o.1 })

  unfoldable pub jsonl_sink : Sink (SinkState C F)
  jsonl_sink = record { write = write_sink }

pub record Service (C F : Type 0) : Type 0 where
  pub processor : Processor
  pub sink : SinkState C F

-- `bridge.NewProcessor(out, cfg.MergeWait)` and `SetObserver`.
unfoldable pub new_service : {C F : Type 0} → ℤ → String → String → SinkState C F → Service C F
new_service merge_wait id version sink = record {
  processor = set_observer id version (new_processor merge_wait);
  sink = sink;
}

-- A call that reaches the processor: an export with the time that the clock gives for each signal, the
-- time of the assembly and the order of its range, or a flush with that order.
pub data Call (D : Type 0) : Type 0 where
  export_logs : List (Option (LogRecord D) × Time) → Time → List (String × Execution) → Call D
  export_spans : List (Option (Span D) × Time) → Time → List (String × Execution) → Call D
  flush_all : List (String × Execution) → Call D

module _ (floats : Floats) (quote : String → String) {C F : Type 0} (file : JsonlFile F)
    (decimal : ℕ → String) (marshal : Execution → String ⊎ Bytes)
    (ctx_err : C → Option String × C) where
  open floats use {Double}

  unfoldable pub answer : Call Double → Service C F → Outcome (SinkState C F)
  answer (export_logs records now order) v =
      consume_log_records floats quote (some (jsonl_sink file decimal marshal ctx_err)) records now
        order v.processor v.sink
  answer (export_spans spans now order) v =
      consume_spans floats quote (some (jsonl_sink file decimal marshal ctx_err)) spans now order
        v.processor v.sink
  answer (flush_all order) v =
      flush quote (some (jsonl_sink file decimal marshal ctx_err)) order v.processor v.sink

  -- An error goes back to the caller, and the service goes on.
  unfoldable pub serve_all : List (Call Double) → Service C F → Service C F
  unfolding answer
  serve_all [] v = v
  serve_all (call ∷ rest) v =
      let o = answer call v in
      serve_all rest (record { processor = o.processor; sink = o.sink_state })
