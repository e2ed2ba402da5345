-- ===== src/Bridge/Consume/Received.antt =====
-- What receiving a series of signals does to the keys: each signal's key is kept, that of a log with
-- a log, and none gets into flight.
use evidra_agentgateway_brid.Prelude.{
  String, ◌≡◌, ◌≢◌, refl, sym, ap, ◌∙◌, true, Option, none, some, List, [], ◌∷◌, ◌++◌, inl, inr,
  Elem,
}
use evidra_agentgateway_brid.Observation.{Time, Execution, join_key}
use evidra_agentgateway_brid.Telemetry.{Floats, LogRecord, Span}
use evidra_agentgateway_brid.Normalize.Records.{from_log_record, from_span}
use evidra_agentgateway_brid.Bridge.Merge.Attribution.{IsHonestRecord}
use evidra_agentgateway_brid.Bridge.Assembly.{AssembledExecution}
use evidra_agentgateway_brid.Bridge.Processor.{Sink}
use evidra_agentgateway_brid.Bridge.Processor.Interleaving.{idle, Reach}
use evidra_agentgateway_brid.Bridge.Processor.Interleaving.Sequential.{world, records, Wrote}
use evidra_agentgateway_brid.Bridge.State.{Processor, signal_logs, signal_traces}
use evidra_agentgateway_brid.Bridge.Processor.Interleaving.Flight.{buffer-in_flight}
use evidra_agentgateway_brid.Bridge.Processor.Interleaving.Held.{kept, received-kept}
use evidra_agentgateway_brid.Bridge.Processor.Interleaving.Retention.{kept-Reach}
use evidra_agentgateway_brid.Bridge.Processor.Interleaving.Logged.{
  logged, received-logged, logged-Reach,
}
use evidra_agentgateway_brid.Bridge.Consume.{
  count_stats, saw_log, saw_span, take_in, receive_logs, receive_spans, consume_log_records,
}
use evidra_agentgateway_brid.Bridge.Consume.Runs.{
  receive_logs-Reach, receive_spans-Reach, assemble_expired-Traced, consume_log_records-Traced,
}

module _ (quote : String → String) where
  take_in-in_flight :
      (m : Option Execution) (signal : String) (now : Time) (p : Processor)
      → (take_in quote m signal now p).in_flight ≡ p.in_flight
  unfolding take_in
  take_in-in_flight none signal now p = refl
  take_in-in_flight (some ex) signal now p = buffer-in_flight quote ex signal now p

  take_in-kept :
      (m : Option Execution) (ex : Execution) (signal : String) (now : Time) (p : Processor)
      → m ≡ some ex
      → join_key ex.trace_id ex.span_id ≢ ""
      → kept (join_key ex.trace_id ex.span_id) (take_in quote m signal now p) ≡ true
  unfolding take_in
  take_in-kept m ex signal now p e n = rw e (received-kept quote ex signal now p n)

  take_in-logged :
      (m : Option Execution) (ex : Execution) (now : Time) (p : Processor)
      → m ≡ some ex
      → join_key ex.trace_id ex.span_id ≢ ""
      → logged (join_key ex.trace_id ex.span_id) (take_in quote m signal_logs now p) ≡ true
  unfolding take_in
  take_in-logged m ex now p e n = rw e (received-logged quote ex now p n)

module _ (floats : Floats) (quote : String → String) where
  open floats use {Double}

  pub receive_logs-in_flight :
      (records : List (Option (LogRecord Double) × Time)) (p : Processor)
      → (receive_logs floats quote records p).in_flight ≡ p.in_flight
  unfolding receive_logs
  receive_logs-in_flight [] p = refl
  receive_logs-in_flight ((m, now) ∷ rest) p =
      receive_logs-in_flight rest _
      ∙ take_in-in_flight quote (from_log_record floats m) signal_logs now (count_stats saw_log p)

  pub receive_spans-in_flight :
      (spans : List (Option (Span Double) × Time)) (p : Processor)
      → (receive_spans floats quote spans p).in_flight ≡ p.in_flight
  unfolding receive_spans
  receive_spans-in_flight [] p = refl
  receive_spans-in_flight ((m, now) ∷ rest) p =
      receive_spans-in_flight rest _
      ∙ take_in-in_flight quote (from_span floats m) signal_traces now (count_stats saw_span p)

  module _ (ex : Execution) (n : join_key ex.trace_id ex.span_id ≢ "") where
    abbrev key : String
    key = join_key ex.trace_id ex.span_id

    pub receive_logs-kept :
        (records : List (Option (LogRecord Double) × Time)) (p : Processor)
        (m : Option (LogRecord Double)) (now : Time)
        → Elem ((m, now)) records
        → from_log_record floats m ≡ some ex
        → kept key (receive_logs floats quote records p) ≡ true
    unfolding receive_logs
    receive_logs-kept [] p m now i e = absurd i
    receive_logs-kept ((m', now') ∷ rest) p m now (inl i) e =
        kept-Reach quote IsHonestRecord key
          (take_in-kept quote (from_log_record floats m') ex signal_logs now'
            (count_stats saw_log p) (ap (λ z. from_log_record floats z.0) (sym i) ∙ e) n)
          (receive_logs-Reach floats quote rest _ [])
    receive_logs-kept ((m', now') ∷ rest) p m now (inr i) e = receive_logs-kept rest _ m now i e

    pub receive_spans-kept :
        (spans : List (Option (Span Double) × Time)) (p : Processor) (m : Option (Span Double))
        (now : Time)
        → Elem ((m, now)) spans
        → from_span floats m ≡ some ex
        → kept key (receive_spans floats quote spans p) ≡ true
    unfolding receive_spans
    receive_spans-kept [] p m now i e = absurd i
    receive_spans-kept ((m', now') ∷ rest) p m now (inl i) e =
        kept-Reach quote IsHonestRecord key
          (take_in-kept quote (from_span floats m') ex signal_traces now' (count_stats saw_span p)
            (ap (λ z. from_span floats z.0) (sym i) ∙ e) n)
          (receive_spans-Reach floats quote rest _ [])
    receive_spans-kept ((m', now') ∷ rest) p m now (inr i) e = receive_spans-kept rest _ m now i e

    receive_logs-logged :
        (records : List (Option (LogRecord Double) × Time)) (p : Processor)
        (m : Option (LogRecord Double)) (now : Time)
        → Elem ((m, now)) records
        → from_log_record floats m ≡ some ex
        → logged key (receive_logs floats quote records p) ≡ true
    unfolding receive_logs
    receive_logs-logged [] p m now i e = absurd i
    receive_logs-logged ((m', now') ∷ rest) p m now (inl i) e =
        logged-Reach quote IsHonestRecord key
          (take_in-logged quote (from_log_record floats m') ex now' (count_stats saw_log p)
            (ap (λ z. from_log_record floats z.0) (sym i) ∙ e) n)
          (receive_logs-Reach floats quote rest _ [])
    receive_logs-logged ((m', now') ∷ rest) p m now (inr i) e = receive_logs-logged rest _ m now i e

    -- Whatever the sink answers: consuming log records is a run of the interleaved model in which every
    -- signal is honest about its operation id and which writes exactly what the sink accepts. The key
    -- of every tool call among the records that has one is emitted then, or signals of it are buffered
    -- with the time at which they become ready, and so is a log of it.
    pub consume_log_records-kept :
        {S : Type 0} (sink : Option (Sink S)) (now : Time) (order : List (String × Execution))
        (p : Processor) (s : S) (l : List AssembledExecution)
        (records_in : List (Option (LogRecord Double) × Time)) (m : Option (LogRecord Double))
        (at : Time)
        → Elem ((m, at)) records_in
        → from_log_record floats m ≡ some ex
        → (let o = consume_log_records floats quote sink records_in now order p s in
            (kept key o.processor ≡ true)
            × (logged key o.processor ≡ true)
            × ((new : List AssembledExecution) × Reach quote IsHonestRecord
                  (world p idle l)
                  (world o.processor idle (new ++ l))
                × Wrote sink s (records new) o.sink_state))
    unfolding consume_log_records
    consume_log_records-kept sink now order p s l records_in m at i e =
        let q = receive_logs floats quote records_in p in
        let (new, r, w) = assemble_expired-Traced quote sink now order q s l in
        (
          kept-Reach quote IsHonestRecord key (receive_logs-kept records_in p m at i e) r,
          logged-Reach quote IsHonestRecord key (receive_logs-logged records_in p m at i e) r,
          consume_log_records-Traced floats quote sink now order p s l records_in,
        )
