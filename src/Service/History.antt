-- ===== src/Service/History.antt =====
-- What a service has written, as the records that its assemblies made.
use evidra_agentgateway_brid.Prelude.{String, ◌≡◌, ◌⊎◌, List, ◌++◌, map, All}
use evidra_agentgateway_brid.Prelude.Int.{ℤ}
use evidra_agentgateway_brid.Observation.{Execution}
use evidra_agentgateway_brid.Bridge.Merge.Attribution.{IsHonestRecord}
use evidra_agentgateway_brid.Bridge.Assembly.{AssembledExecution}
use evidra_agentgateway_brid.Bridge.Processor.Interleaving.{idle, Reach}
use evidra_agentgateway_brid.Bridge.Processor.Interleaving.Once.{
  NeverReopened, start, no_execution_twice,
}
use evidra_agentgateway_brid.Bridge.Processor.Interleaving.Sequential.{world}
use evidra_agentgateway_brid.Bridge.Processor.Interleaving.Keyed.{IsKeyed, written-IsKeyed}
use evidra_agentgateway_brid.Sink.{Bytes}
use evidra_agentgateway_brid.Service.{Service}
use evidra_agentgateway_brid.Service.Sinks.{file_lines}

module _ (quote : String → String) (marshal : Execution → String ⊎ Bytes) {C F : Type 0}
    (content : F → Bytes) (merge_wait : ℤ) (before : F) where
  -- The records are what a new processor has written on its way to the service's: behind what the file
  -- held it has a line for the execution of each, each consumes the key of its execution and at most
  -- the parent that this names, and none has a key that an earlier one has consumed.
  pub record IsHistory (v : Service C F) (written : List AssembledExecution) : Type 0 where
    pub lines :
        content v.sink.out.f ≡ content before ++ file_lines marshal (map (λ a. a.ex) written)
    pub run : Reach quote IsHonestRecord (start merge_wait) (world v.processor idle written)
    pub keyed : All IsKeyed written
    pub once : NeverReopened written

  pub run-IsHistory :
      (v : Service C F) (written : List AssembledExecution)
      → content v.sink.out.f ≡ content before ++ file_lines marshal (map (λ a. a.ex) written)
      → Reach quote IsHonestRecord (start merge_wait) (world v.processor idle written)
      → IsHistory v written
  run-IsHistory v written e r = record {
    lines = e;
    run = r;
    keyed = written-IsKeyed quote IsHonestRecord merge_wait _ r;
    once = no_execution_twice quote IsHonestRecord merge_wait _ r;
  }
