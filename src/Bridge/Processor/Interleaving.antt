-- ===== src/Bridge/Processor/Interleaving.antt =====
-- The processor under concurrency: every section between a lock and its unlock is one step, so a
-- signal can come in between any two steps of an assembly. `assembleMu` keeps assemblies apart: the
-- control state belongs to the one that runs.
pub mod Frame
pub mod Ownership
pub mod Held
pub mod Restoring
pub mod Sound
pub mod Reserved
pub mod WellFormed
pub mod Once
pub mod Retention
pub mod Logged
pub mod Coherent
pub mod Flight
pub mod Quiet
pub mod Keeps
pub mod Everywhere
pub mod Keyed
pub mod Honest
pub mod Sequential
use evidra_agentgateway_brid.Prelude.{ℕ, ◌+◌, String, ◌≡◌, true, false, List, [], ◌∷◌}
use evidra_agentgateway_brid.Dict.{flag}
use evidra_agentgateway_brid.Observation.{Time, Execution}
use evidra_agentgateway_brid.Bridge.State.{Processor, buffer, set_observer}
use evidra_agentgateway_brid.Bridge.Assembly.{
  AssembledExecution, acknowledge, count_failure, restore_reserved,
}
use evidra_agentgateway_brid.Bridge.Processor.{assemble_out, reserve_out}

-- Where the one running assembly stands: between two snapshots, inside the sink's `Write`, or behind a
-- failed write and before the rollback.
pub data Control : Type 0 where
  idle : Control
  running : List AssembledExecution → Control
  writing : AssembledExecution → List AssembledExecution → Control
  failed : List AssembledExecution → Control

-- The records that the sink has accepted stand newest first.
pub record World : Type 0 where
  pub processor : Processor
  pub control : Control
  pub written : List AssembledExecution

-- `LogRecordsSeen`, `SpansSeen` and `ToolCallsIgnored`, which `ConsumeLogRecords` and `ConsumeSpans`
-- count before a signal is buffered.
abbrev pub tally : ℕ → ℕ → ℕ → Processor → Processor
tally logs spans ignored p = record p {
  stats = record p.stats {
    log_records_seen = p.stats.log_records_seen + logs;
    spans_seen = p.stats.spans_seen + spans;
    tool_calls_ignored = p.stats.tool_calls_ignored + ignored;
  };
}

-- `Admitted` says which normalized signals the receivers hand over.
module _ (quote : String → String) (Admitted : Execution → Type 0) where
  pub data Step (w u : World) : Type 0 where
    count :
        (logs spans ignored : ℕ)
        → u ≡ record w { processor = tally logs spans ignored w.processor }
        → Step w u
    observe :
        (id version : String)
        → u ≡ record w { processor = set_observer id version w.processor }
        → Step w u
    receive :
        (ex : Execution) (signal : String) (now : Time)
        → Admitted ex
        → u ≡ record w { processor = buffer quote ex signal now w.processor }
        → Step w u
    claim :
        (cutoff : Time) (order : List (String × Execution))
        → w.control ≡ idle
        → (let out = assemble_out quote cutoff order w.processor in
            u ≡ record w { processor = reserve_out out w.processor; control = running out })
        → Step w u
    skip :
        (a : AssembledExecution) (rest : List AssembledExecution)
        → w.control ≡ running (a ∷ rest)
        → flag a.key w.processor.emitted ≡ true
        → u ≡ record w { control = running rest }
        → Step w u
    begin :
        (a : AssembledExecution) (rest : List AssembledExecution)
        → w.control ≡ running (a ∷ rest)
        → flag a.key w.processor.emitted ≡ false
        → u ≡ record w { control = writing a rest }
        → Step w u
    succeed :
        (a : AssembledExecution) (rest : List AssembledExecution)
        → w.control ≡ writing a rest
        → u ≡ record {
          processor = acknowledge a w.processor;
          control = running rest;
          written = a ∷ w.written;
        }
        → Step w u
    fail :
        (a : AssembledExecution) (rest : List AssembledExecution)
        → w.control ≡ writing a rest
        → u ≡ record w { processor = count_failure w.processor; control = failed (a ∷ rest) }
        → Step w u
    roll_back :
        (records : List AssembledExecution)
        → w.control ≡ failed records
        → u ≡ record w { processor = restore_reserved quote records w.processor; control = idle }
        → Step w u
    finish : w.control ≡ running [] → u ≡ record w { control = idle } → Step w u

  pub data Reach (w : World) : World → Type 0 where
    here : Reach w w
    next : {u v : World} → Reach w u → Step u v → Reach w v
