-- ===== src/Service/Delivered.antt =====
-- A flush that reports no error has written every key that the service kept.
use mathlib.Core.List.{map-append, append-nil}
use evidra_agentgateway_brid.Prelude.{
  ℕ, String, ◌≡◌, refl, true, none, Option, some, List, [], ◌++◌, ◌⊎◌,
}
use evidra_agentgateway_brid.Prelude.Int.{ℤ}
use evidra_agentgateway_brid.Dict.{get, flag}
use evidra_agentgateway_brid.Observation.{Execution}
use evidra_agentgateway_brid.Telemetry.{Floats}
use evidra_agentgateway_brid.Bridge.Merge.Attribution.{IsHonestRecord}
use evidra_agentgateway_brid.Bridge.State.{new_processor, set_observer}
use evidra_agentgateway_brid.Bridge.Assembly.{AssembledExecution}
use evidra_agentgateway_brid.Bridge.Processor.Interleaving.{observe, here, next}
use evidra_agentgateway_brid.Bridge.Processor.Interleaving.Held.{kept}
use evidra_agentgateway_brid.Bridge.Processor.Interleaving.Retention.{IsConsumed}
use evidra_agentgateway_brid.Bridge.Processor.Interleaving.Sequential.{
  records, Wrote, Wrote-trans, Reach-trans,
}
use evidra_agentgateway_brid.Bridge.Processor.Complete.Everything.{flush-IsConsumed}
use evidra_agentgateway_brid.Bridge.Processor.Complete.Snapshots.{HasNoChain}
use evidra_agentgateway_brid.Sink.{Bytes, JsonlFile}
use evidra_agentgateway_brid.Sink.Lines.{FileLaws}
use evidra_agentgateway_brid.Service.{
  SinkState, jsonl_sink, new_service, Call, flush_all, answer, serve_all,
}
use evidra_agentgateway_brid.Service.History.{IsHistory, run-IsHistory}
use evidra_agentgateway_brid.Service.Sinks.{Wrote-file_lines}
use evidra_agentgateway_brid.Service.Files.{serve_all-run}
use evidra_agentgateway_brid.Service.Orderly.{Fits, behind, Orderly, Reached, serve_all-IsLanded}

module _ (floats : Floats) (quote : String → String) {C F : Type 0} (file : JsonlFile F)
    (decimal : ℕ → String) (marshal : Execution → String ⊎ Bytes) (ctx_err : C → Option String × C)
    (merge_wait : ℤ) where
  open floats use {Double}

  module _ (content : F → Bytes) (laws : FileLaws file content) where
    -- A new service answers calls whose ranges visit what is buffered, and then a flush that reports
    -- no error: unless the sink is poisoned, the file has one line for each of a series of records that
    -- consume every key that was kept, none of them twice.
    pub serve_all-delivers :
        (id version : String) (first : SinkState C F) (calls : List (Call Double))
        (order : List (String × Execution))
        → (let v =
              serve_all floats quote file decimal marshal ctx_err calls
                (new_service merge_wait id version first) in
            let u = behind floats quote file decimal marshal ctx_err (flush_all order) v in
            Orderly floats quote file decimal marshal ctx_err calls
              (new_service merge_wait id version first)
            → Fits floats quote file decimal marshal ctx_err (flush_all order) v.processor
            → HasNoChain order
            → (answer floats quote file decimal marshal ctx_err (flush_all order) v).err ≡ none
            → u.sink.out.poisoned ≡ none
            → (written : List AssembledExecution) × IsHistory quote marshal content merge_wait
                first.out.f u written
              × ((k : String) → kept k v.processor ≡ true → IsConsumed k written))
    unfolding new_service answer
    serve_all-delivers id version first calls order o f c e p =
        let v0 = new_service merge_wait id version first in
        let v = serve_all floats quote file decimal marshal ctx_err calls v0 in
        let begun : Reached floats quote file decimal marshal ctx_err merge_wait v0.processor [] =
          next here (observe id version refl) in
        let (new, r, w) = serve_all-run floats quote file decimal marshal ctx_err calls v0 [] in
        let reach : Reached floats quote file decimal marshal ctx_err merge_wait v.processor new =
          rw append-nil at (Reach-trans quote IsHonestRecord begun r) in
        let landed =
          serve_all-IsLanded floats quote file decimal marshal ctx_err merge_wait calls v0 [] begun
            (λ k. unfold set_observer new_processor flag get in refl) o in
        let (more, end, _, x, consumed) =
          flush-IsConsumed quote IsHonestRecord (some (jsonl_sink file decimal marshal ctx_err))
            merge_wait order v.processor v.sink new reach landed f c e in
        let u = behind floats quote file decimal marshal ctx_err (flush_all order) v in
        let wrote : Wrote (some (jsonl_sink file decimal marshal ctx_err)) first
            (records (more ++ new)) u.sink =
          rw map-append (Wrote-trans _ w x) in
        (
          more ++ new,
          run-IsHistory quote marshal content merge_wait first.out.f u (more ++ new)
              (Wrote-file_lines file decimal marshal ctx_err content laws wrote p).0 end,
          consumed,
        )
