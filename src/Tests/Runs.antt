-- ===== src/Tests/Runs.antt =====
-- Runs of the processor.
use evidra_agentgateway_brid.Prelude.{
  String, ◌≡◌, refl, true, false, Option, none, some, List, [], ◌∷◌, ◌++◌, ◌⊎◌, All, length,
}
use evidra_agentgateway_brid.Prelude.Int.{pos}
use evidra_agentgateway_brid.Text.{
  is_space, trim_space, trim_left, trim_right, join, has_prefix, drop,
}
use evidra_agentgateway_brid.Text.Sort.{sort_strings}
use evidra_agentgateway_brid.Dict.{get, put, delete, has, flag, counter}
use evidra_agentgateway_brid.Observation.{
  Execution, join_key, valid_operation_id, operation_id_pattern, classify_operation,
}
use evidra_agentgateway_brid.Bridge.Merge.{
  merge, merge_source, merge_correlation, merge_status, merge_field, union, transport_of,
  stronger_availability,
}
use evidra_agentgateway_brid.Bridge.Merge.Attribution.{IsHonestRecord}
use evidra_agentgateway_brid.Bridge.State.{Processor, new_processor, buffer, store}
use evidra_agentgateway_brid.Bridge.Assembly.{
  AssembledExecution, ready_keys, ready_from, children, snapshots, assemble_key, sort_by_key,
  insert_by_key, reserve, acknowledge, count_failure, restore_reserved,
}
use evidra_agentgateway_brid.Bridge.Processor.{
  Sink, Outcome, emit, emit_all, assemble_out, reserve_out, assemble, flush,
}
use evidra_agentgateway_brid.Bridge.Processor.Interleaving.{
  World, idle, receive, claim, begin, succeed, finish, Reach, here, next,
}
use evidra_agentgateway_brid.Bridge.Processor.Interleaving.Once.{
  NeverReopened, start, no_execution_twice,
}
use evidra_agentgateway_brid.Bridge.Processor.Interleaving.Honest.{written-IsHonestRecord}
use evidra_agentgateway_brid.Bridge.Processor.Interleaving.Sequential.{world, records, Wrote}
use evidra_agentgateway_brid.Bridge.Processor.Complete.Assembled.{IsDone, HasFailed, assemble_lem}
use evidra_agentgateway_brid.Tests.Values.{quote, client_span, access_log}

unfoldable pub run : Unit {0}
unfolding is_space trim_space trim_left trim_right join has_prefix drop sort_strings get put delete
    has flag counter join_key valid_operation_id operation_id_pattern classify_operation merge
    merge_source merge_correlation merge_status merge_field union transport_of stronger_availability
    new_processor buffer store ready_keys ready_from children snapshots assemble_key sort_by_key
    insert_by_key reserve acknowledge count_failure restore_reserved emit emit_all assemble_out
    reserve_out assemble flush
run = tt

-- A sink that keeps what it is given, and one that always fails.
abbrev pub keeper : Option (Sink (List Execution))
keeper = some (record { write = λ s ex. (none, ex ∷ s) })

abbrev broken : Option (Sink (List Execution))
broken = some (record { write = λ s ex. (some "disk full", s) })

-- The access log and the client span of one call, buffered.
abbrev buffered : Processor
buffered =
    buffer quote client_span "traces" (pos 7)
      (buffer quote access_log "logs" (pos 6) (new_processor (pos 10)))

abbrev order : List (String × Execution)
order = buffered.active.spans

abbrev flushed : Outcome (List Execution)
flushed = flush quote keeper order buffered []

-- One call is written once, with the operation id of the log, and both signals are acknowledged.
one_call :
    (flushed.err ≡ none)
    × (length flushed.sink_state ≡ 1)
    × (flushed.processor.stats.correlated ≡ 1)
    × (flushed.processor.stats.emitted_merged ≡ 1)
    × (flushed.processor.active.first_seen ≡ [])
unfolding run
one_call = (refl, refl, refl, refl, refl)

abbrev refused : Outcome (List Execution)
refused = flush quote broken order buffered []

kept : (refused.err ≡ some "sink: disk full") × (refused.processor.active ≡ buffered.active)
unfolding run
kept = (refl, refl)

assemble_lem_example :
    let o = assemble quote broken (pos 20) order buffered [] in
    ((new : List AssembledExecution) × Reach quote IsHonestRecord
        (world buffered idle [])
        (world o.processor idle (new ++ []))
      × Wrote broken [] (records new) o.sink_state)
    × (IsDone quote broken (assemble_out quote (pos 20) order buffered) o
        ⊎ HasFailed quote broken (assemble_out quote (pos 20) order buffered) o)
assemble_lem_example = assemble_lem quote broken IsHonestRecord (pos 20) order buffered [] []

abbrev received : Processor
received = buffer quote access_log "logs" (pos 6) (new_processor (pos 10))

abbrev pub log_snapshot : AssembledExecution
log_snapshot = record {
  key = "t1/s1";
  consumed_keys = "t1/s1" ∷ [];
  ex = access_log;
  both = false;
  loggy = true;
  parents_suppressed = 0;
}

abbrev reserved : Processor
reserved = reserve_out (assemble_out quote (pos 20) [] received) received

abbrev pub ended : World
ended = record {
  processor = acknowledge log_snapshot reserved;
  control = idle;
  written = log_snapshot ∷ [];
}

pub access_log-IsHonest : IsHonestRecord access_log
unfolding run
access_log-IsHonest = (refl, refl, refl)

one_written : Reach quote IsHonestRecord (start (pos 10)) ended
unfolding run
one_written =
    next
      (next
        (next
          (next (next here (receive access_log "logs" (pos 6) access_log-IsHonest refl))
            (claim (pos 20) [] refl refl))
          (begin log_snapshot [] refl refl refl))
        (succeed log_snapshot [] refl refl))
      (finish refl refl)

no_execution_twice_example : NeverReopened (log_snapshot ∷ [])
no_execution_twice_example = no_execution_twice quote IsHonestRecord (pos 10) ended one_written

written-IsHonestRecord_example : All (λ a. IsHonestRecord a.ex) (log_snapshot ∷ [])
written-IsHonestRecord_example = written-IsHonestRecord quote (pos 10) ended one_written
