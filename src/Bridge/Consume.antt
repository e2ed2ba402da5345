-- ===== src/Bridge/Consume.antt =====
-- `ConsumeLogRecords` and `ConsumeSpans`: normalization, counting, buffering and expiry.
pub mod Runs
pub mod Received
pub mod Counts
use evidra_agentgateway_brid.Prelude.{ℕ, ◌+◌, String, Option, none, some, List, [], ◌∷◌}
use evidra_agentgateway_brid.Observation.{Time, Execution}
use evidra_agentgateway_brid.Telemetry.{Floats, LogRecord, Span}
use evidra_agentgateway_brid.Normalize.Records.{from_log_record, from_span}
use evidra_agentgateway_brid.Bridge.State.{Stats, Processor, signal_logs, signal_traces, buffer}
use evidra_agentgateway_brid.Bridge.Processor.{Sink, Outcome, assemble_expired}

-- `p.count(func(s *Stats) { … })`
abbrev pub count_stats : (Stats → Stats) → Processor → Processor
count_stats mutate p = record p { stats = mutate p.stats }

abbrev pub saw_log : Stats → Stats
saw_log s = record s { log_records_seen = s.log_records_seen + 1 }

abbrev pub saw_span : Stats → Stats
saw_span s = record s { spans_seen = s.spans_seen + 1 }

abbrev pub ignored_one : Stats → Stats
ignored_one s = record s { tool_calls_ignored = s.tool_calls_ignored + 1 }

module _ (quote : String → String) where
  -- A normalized signal, or one that is no tool call, behind the counting of what was seen.
  unfoldable pub take_in : Option Execution → String → Time → Processor → Processor
  take_in none signal now p = count_stats ignored_one p
  take_in (some ex) signal now p = buffer quote ex signal now p

module _ (floats : Floats) (quote : String → String) where
  open floats use {Double}

  -- The loop over the records, each with the time that the clock gives when it is buffered.
  unfoldable pub receive_logs : List (Option (LogRecord Double) × Time) → Processor → Processor
  receive_logs [] p = p
  receive_logs ((record_in, now) ∷ rest) p =
      receive_logs rest
        (take_in quote (from_log_record floats record_in) signal_logs now (count_stats saw_log p))

  unfoldable pub receive_spans : List (Option (Span Double) × Time) → Processor → Processor
  receive_spans [] p = p
  receive_spans ((span, now) ∷ rest) p =
      receive_spans rest
        (take_in quote (from_span floats span) signal_traces now (count_stats saw_span p))

  module _ {S : Type 0} (sink : Option (Sink S)) where
    -- A nil processor does nothing. `now` and `order` are for the assembly of what has expired.
    unfoldable pub consume_log_records :
        List (Option (LogRecord Double) × Time)
        → Time
        → List (String × Execution)
        → Processor
        → S
        → Outcome S
    consume_log_records records now order p s =
        assemble_expired quote sink now order (receive_logs records p) s

    unfoldable pub consume_spans :
        List (Option (Span Double) × Time)
        → Time
        → List (String × Execution)
        → Processor
        → S
        → Outcome S
    consume_spans spans now order p s =
        assemble_expired quote sink now order (receive_spans spans p) s
