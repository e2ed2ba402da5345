-- ===== src/Service/Files.antt =====
-- The whole service: what its file holds after any series of exports and flushes.
use mathlib.Core.List.{map-append, append-nil, append_assoc}
use evidra_agentgateway_brid.Prelude.{
  ℕ, String, ◌≡◌, refl, ◌⊎◌, Option, none, some, List, [], ◌∷◌, ◌++◌, All,
}
use evidra_agentgateway_brid.Prelude.Int.{ℤ, pos}
use evidra_agentgateway_brid.Observation.{Execution}
use evidra_agentgateway_brid.Telemetry.{Floats}
use evidra_agentgateway_brid.Bridge.Merge.Attribution.{IsHonestRecord}
use evidra_agentgateway_brid.Bridge.Assembly.{AssembledExecution}
use evidra_agentgateway_brid.Bridge.Processor.{flush}
use evidra_agentgateway_brid.Bridge.Processor.Interleaving.{idle, observe, Reach, here, next}
use evidra_agentgateway_brid.Bridge.Processor.Interleaving.Frame.{IsTally}
use evidra_agentgateway_brid.Bridge.Processor.Interleaving.Once.{start, counters_balance}
use evidra_agentgateway_brid.Bridge.Processor.Interleaving.Honest.{written-IsHonestRecord}
use evidra_agentgateway_brid.Bridge.Processor.Interleaving.Sequential.{
  world, records, Wrote, quiet, Wrote-trans, Traced, Reach-trans, assemble-Traced,
}
use evidra_agentgateway_brid.Bridge.Consume.Runs.{consume_log_records-Traced, consume_spans-Traced}
use evidra_agentgateway_brid.Sink.{Bytes, JsonlFile}
use evidra_agentgateway_brid.Sink.Lines.{FileLaws}
use evidra_agentgateway_brid.Service.{
  SinkState, jsonl_sink, Service, new_service, Call, export_logs, export_spans, flush_all, answer,
  serve_all,
}
use evidra_agentgateway_brid.Service.History.{IsHistory, run-IsHistory}
use evidra_agentgateway_brid.Service.Sinks.{Wrote-file_lines}

module _ (floats : Floats) (quote : String → String) {C F : Type 0} (file : JsonlFile F)
    (decimal : ℕ → String) (marshal : Execution → String ⊎ Bytes)
    (ctx_err : C → Option String × C) where
  open floats use {Double}

  pub answer-Traced :
      (call : Call Double) (v : Service C F) (l : List AssembledExecution)
      → Traced quote IsHonestRecord
          (some (jsonl_sink file decimal marshal ctx_err))
          v.processor
          idle
          l
          v.sink
          (answer floats quote file decimal marshal ctx_err call v)
  unfolding answer flush
  answer-Traced (export_logs records now order) v l =
      consume_log_records-Traced floats quote _ now order v.processor v.sink l records
  answer-Traced (export_spans spans now order) v l =
      consume_spans-Traced floats quote _ now order v.processor v.sink l spans
  answer-Traced (flush_all order) v l =
      assemble-Traced quote IsHonestRecord _ (pos 0) order v.processor v.sink l

  -- A series of calls is a run of the interleaved model, in which the sink accepts what is written.
  pub serve_all-run :
      (calls : List (Call Double)) (v : Service C F) (l : List AssembledExecution)
      → let u = serve_all floats quote file decimal marshal ctx_err calls v in
        (new : List AssembledExecution) × Reach quote IsHonestRecord
          (world v.processor idle l)
          (world u.processor idle (new ++ l))
        × Wrote (some (jsonl_sink file decimal marshal ctx_err)) v.sink (records new) u.sink
  unfolding serve_all
  serve_all-run [] v l = ([], here, quiet)
  serve_all-run (call ∷ rest) v l =
      let o = answer floats quote file decimal marshal ctx_err call v in
      let (new, r, w) = answer-Traced call v l in
      let (more, q, x) =
        serve_all-run rest (record { processor = o.processor; sink = o.sink_state }) (new ++ l) in
      (
        more ++ new,
        rw append_assoc (Reach-trans quote IsHonestRecord r q),
        rw map-append (Wrote-trans _ w x),
      )

  module _ (content : F → Bytes) (laws : FileLaws file content) where
    -- A service with a new processor serves any telemetry and any flushes, whatever the file and the
    -- contexts do. Unless its sink is poisoned at the end, the file holds what it held and then one line
    -- for each of a series of records, which the processor has written on its way, each with the key of
    -- its execution: no record is written whose key an earlier one has consumed, each is honest about
    -- its operation id, and the counters of emission count them.
    pub serve_all-file :
        (merge_wait : ℤ) (id version : String) (sink : SinkState C F) (calls : List (Call Double))
        → (serve_all floats quote file decimal marshal ctx_err calls
            (new_service merge_wait id version sink)).sink.out.poisoned
          ≡ none
        → let u =
            serve_all floats quote file decimal marshal ctx_err calls
              (new_service merge_wait id version sink) in
          (written : List AssembledExecution) × IsHistory quote marshal content merge_wait
            sink.out.f u written
          × All (λ a. IsHonestRecord a.ex) written
          × IsTally written u.processor.stats
    unfolding new_service
    serve_all-file merge_wait id version sink calls h =
        let v = new_service merge_wait id version sink in
        let u = serve_all floats quote file decimal marshal ctx_err calls v in
        let (new, r, w) = serve_all-run calls v [] in
        let first : Reach quote IsHonestRecord (start merge_wait) (world v.processor idle []) =
          next here (observe id version refl) in
        let reach = Reach-trans quote IsHonestRecord first r in
        let at : Reach quote IsHonestRecord (start merge_wait) (world u.processor idle new) =
          rw append-nil at reach in
        (
          new,
          run-IsHistory quote marshal content merge_wait sink.out.f u new
              (Wrote-file_lines file decimal marshal ctx_err content laws w h).0 at,
          written-IsHonestRecord quote merge_wait _ at,
          counters_balance quote IsHonestRecord merge_wait _ at,
        )
