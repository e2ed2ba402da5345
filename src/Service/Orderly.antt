-- ===== src/Service/Orderly.antt =====
-- Between two calls nothing is in flight, and a key that is kept stays so.
use evidra_agentgateway_brid.Prelude.{
  ℕ, String, ◌≡◌, ◌∙◌, ap, true, Option, some, List, [], ◌∷◌, ◌++◌, ◌⊎◌,
}
use evidra_agentgateway_brid.Prelude.Int.{ℤ, pos}
use evidra_agentgateway_brid.Dict.{flag}
use evidra_agentgateway_brid.Observation.{Execution}
use evidra_agentgateway_brid.Telemetry.{Floats}
use evidra_agentgateway_brid.Bridge.Merge.Attribution.{IsHonestRecord}
use evidra_agentgateway_brid.Bridge.State.{Processor}
use evidra_agentgateway_brid.Bridge.Assembly.{AssembledExecution}
use evidra_agentgateway_brid.Bridge.Processor.{flush}
use evidra_agentgateway_brid.Bridge.Processor.Interleaving.{idle, Reach}
use evidra_agentgateway_brid.Bridge.Processor.Interleaving.Once.{start}
use evidra_agentgateway_brid.Bridge.Processor.Interleaving.Held.{kept}
use evidra_agentgateway_brid.Bridge.Processor.Interleaving.Retention.{kept-Reach}
use evidra_agentgateway_brid.Bridge.Processor.Interleaving.Coherent.{Visits}
use evidra_agentgateway_brid.Bridge.Processor.Interleaving.Flight.{IsLanded}
use evidra_agentgateway_brid.Bridge.Processor.Interleaving.Sequential.{world, Reach-trans}
use evidra_agentgateway_brid.Bridge.Processor.Interleaving.WellFormed.{processor_IsSound}
use evidra_agentgateway_brid.Bridge.Processor.Complete.Landing.{
  assemble-IsLanded, assemble_expired-IsLanded,
}
use evidra_agentgateway_brid.Bridge.Consume.{
  receive_logs, receive_spans, consume_log_records, consume_spans,
}
use evidra_agentgateway_brid.Bridge.Consume.Runs.{receive_logs-Reach, receive_spans-Reach}
use evidra_agentgateway_brid.Bridge.Consume.Received.{
  receive_logs-in_flight, receive_spans-in_flight,
}
use evidra_agentgateway_brid.Sink.{Bytes, JsonlFile}
use evidra_agentgateway_brid.Service.{
  jsonl_sink, Service, Call, export_logs, export_spans, flush_all, answer, serve_all,
}
use evidra_agentgateway_brid.Service.Files.{answer-Traced, serve_all-run}

module _ (floats : Floats) (quote : String → String) {C F : Type 0} (file : JsonlFile F)
    (decimal : ℕ → String) (marshal : Execution → String ⊎ Bytes)
    (ctx_err : C → Option String × C) where
  open floats use {Double}

  -- The range of the call's assembly visits the spans that are buffered then.
  abbrev pub Fits : Call Double → Processor → Type 0
  Fits (export_logs records now order) p =
      Visits order (receive_logs floats quote records p).active.spans
  Fits (export_spans spans now order) p =
      Visits order (receive_spans floats quote spans p).active.spans
  Fits (flush_all order) p = Visits order p.active.spans

  -- The service behind a call.
  abbrev pub behind : Call Double → Service C F → Service C F
  behind call v =
      let o = answer floats quote file decimal marshal ctx_err call v in
      record { processor = o.processor; sink = o.sink_state }

  -- All the ranges of the calls do.
  abbrev pub Orderly : List (Call Double) → Service C F → Type 0
  Orderly [] v = Unit
  Orderly (call ∷ rest) v = Fits call v.processor × Orderly rest (behind call v)

  pub Orderly-append :
      (calls more : List (Call Double)) (v : Service C F)
      → Orderly calls v
      → Orderly more (serve_all floats quote file decimal marshal ctx_err calls v)
      → Orderly (calls ++ more) v
  unfolding serve_all
  Orderly-append [] more v h m = m
  Orderly-append (c ∷ calls) more v h m = (h.0, Orderly-append calls more (behind c v) h.1 m)

  abbrev pub AllLanded : Processor → Type 0
  AllLanded p = (k : String) → IsLanded p k

  module _ (max_wait : ℤ) where
    abbrev pub Reached : Processor → List AssembledExecution → Type 0
    Reached p l = Reach quote IsHonestRecord (start max_wait) (world p idle l)

    pub answer-IsLanded :
        (call : Call Double) (v : Service C F) (l : List AssembledExecution)
        → Reached v.processor l
        → AllLanded v.processor
        → Fits call v.processor
        → AllLanded (behind call v).processor
    unfolding answer consume_log_records consume_spans flush
    answer-IsLanded (export_logs records now order) v l r h f =
        let q = receive_logs floats quote records v.processor in
        let s =
          Reach-trans quote IsHonestRecord r
            (receive_logs-Reach floats quote records v.processor l) in
        assemble_expired-IsLanded quote (some (jsonl_sink file decimal marshal ctx_err)) now order q
          v.sink (λ k. processor_IsSound quote IsHonestRecord max_wait (world q idle l) k s)
          (λ k. ap (flag k) (receive_logs-in_flight floats quote records v.processor) ∙ h k) f
    answer-IsLanded (export_spans spans now order) v l r h f =
        let q = receive_spans floats quote spans v.processor in
        let s =
          Reach-trans quote IsHonestRecord r
            (receive_spans-Reach floats quote spans v.processor l) in
        assemble_expired-IsLanded quote (some (jsonl_sink file decimal marshal ctx_err)) now order q
          v.sink (λ k. processor_IsSound quote IsHonestRecord max_wait (world q idle l) k s)
          (λ k. ap (flag k) (receive_spans-in_flight floats quote spans v.processor) ∙ h k) f
    answer-IsLanded (flush_all order) v l r h f =
        assemble-IsLanded quote (some (jsonl_sink file decimal marshal ctx_err)) (pos 0) order
          v.processor v.sink
          (λ k. processor_IsSound quote IsHonestRecord max_wait (world v.processor idle l) k r) h f

    -- Nothing is in flight behind a series of calls.
    pub serve_all-IsLanded :
        (calls : List (Call Double)) (v : Service C F) (l : List AssembledExecution)
        → Reached v.processor l
        → AllLanded v.processor
        → Orderly calls v
        → AllLanded (serve_all floats quote file decimal marshal ctx_err calls v).processor
    unfolding serve_all
    serve_all-IsLanded [] v l r h o = h
    serve_all-IsLanded (call ∷ rest) v l r h o =
        let (new, s, w) = answer-Traced floats quote file decimal marshal ctx_err call v l in
        serve_all-IsLanded rest (behind call v) (new ++ l) (Reach-trans quote IsHonestRecord r s)
          (answer-IsLanded call v l r h o.0) o.1

  -- A key that is kept stays so, whatever is called.
  pub serve_all-kept :
      (calls : List (Call Double)) (v : Service C F) (k : String)
      → kept k v.processor ≡ true
      → kept k (serve_all floats quote file decimal marshal ctx_err calls v).processor ≡ true
  serve_all-kept calls v k h =
      let (new, r, w) = serve_all-run floats quote file decimal marshal ctx_err calls v [] in
      kept-Reach quote IsHonestRecord k h r
