-- ===== src/Bridge/Consume/Runs.antt =====
-- Consuming telemetry as a run of the interleaved model.
use mathlib.Core.Option.{none-ne-some}
use native.Mathlib.Numerals.{unary_clauses}
use evidra_agentgateway_brid.Prelude.{
  String, ◌≡◌, refl, Option, none, some, List, [], ◌∷◌, inl, inr, Bool-cases,
}
use evidra_agentgateway_brid.Prelude.Int.{pos, leb_ℤ, ◌-ℤ◌}
use evidra_agentgateway_brid.Observation.{Time, Execution}
use evidra_agentgateway_brid.Telemetry.{Floats, LogRecord, Span}
use evidra_agentgateway_brid.Normalize.Records.{from_log_record, from_span}
use evidra_agentgateway_brid.Normalize.Records.Honest.{from_log_record-IsNormal, from_span-IsNormal}
use evidra_agentgateway_brid.Bridge.Merge.Attribution.{IsHonestRecord}
use evidra_agentgateway_brid.Bridge.State.{Processor, signal_logs, signal_traces}
use evidra_agentgateway_brid.Bridge.Assembly.{AssembledExecution}
use evidra_agentgateway_brid.Bridge.Processor.{Sink, Outcome, assemble_expired}
use evidra_agentgateway_brid.Bridge.Processor.Interleaving.{idle, count, receive, Reach, here, next}
use evidra_agentgateway_brid.Bridge.Processor.Interleaving.Sequential.{
  world, Reach-trans, Traced, quiet, assemble-Traced,
}
use evidra_agentgateway_brid.Bridge.Consume.{
  count_stats, saw_log, saw_span, take_in, receive_logs, receive_spans, consume_log_records,
  consume_spans,
}

module _ (quote : String → String) where
  take_in-Reach :
      (m : Option Execution) (signal : String) (now : Time) (p : Processor)
      (l : List AssembledExecution)
      → ((ex : Execution) → m ≡ some ex → IsHonestRecord ex)
      → Reach quote IsHonestRecord (world p idle l) (world (take_in quote m signal now p) idle l)
  unfolding take_in
  take_in-Reach none signal now p l h = next here (count 0 0 1 (simp unary_clauses refl))
  take_in-Reach (some ex) signal now p l h = next here (receive ex signal now (h ex refl) refl)

  -- A run that is followed by an uninterrupted assembly.
  then_Traced :
      {S : Type 0} (sink : Option (Sink S)) (p q : Processor) (l : List AssembledExecution) (s : S)
      (o : Outcome S)
      → Reach quote IsHonestRecord (world p idle l) (world q idle l)
      → Traced quote IsHonestRecord sink q idle l s o
      → Traced quote IsHonestRecord sink p idle l s o
  then_Traced sink p q l s o a (new, b, w) = (new, Reach-trans quote IsHonestRecord a b, w)

  pub assemble_expired-Traced :
      {S : Type 0} (sink : Option (Sink S)) (now : Time) (order : List (String × Execution))
      (p : Processor) (s : S) (l : List AssembledExecution)
      → Traced quote IsHonestRecord sink p idle l s (assemble_expired quote sink now order p s)
  unfolding assemble_expired
  assemble_expired-Traced sink now order p s l = elim (Bool-cases (leb_ℤ p.max_wait (pos 0))) [
    | inl e ↦ rw e ([], here, quiet)
    | inr e ↦ rw e (assemble-Traced quote IsHonestRecord sink (now -ℤ p.max_wait) order p s l)
  ]

module _ (floats : Floats) (quote : String → String) where
  open floats use {Double}

  log-IsHonest :
      (m : Option (LogRecord Double)) (ex : Execution)
      → from_log_record floats m ≡ some ex
      → IsHonestRecord ex
  unfolding from_log_record
  log-IsHonest none ex e = absurd (none-ne-some ex e)
  log-IsHonest (some r) ex e = (from_log_record-IsNormal floats r ex e).2

  span-IsHonest :
      (m : Option (Span Double)) (ex : Execution) → from_span floats m ≡ some ex → IsHonestRecord ex
  unfolding from_span
  span-IsHonest none ex e = absurd (none-ne-some ex e)
  span-IsHonest (some r) ex e = (from_span-IsNormal floats r ex e).2

  pub receive_logs-Reach :
      (records : List (Option (LogRecord Double) × Time)) (p : Processor)
      (l : List AssembledExecution)
      → Reach quote IsHonestRecord
          (world p idle l)
          (world (receive_logs floats quote records p) idle l)
  unfolding receive_logs
  receive_logs-Reach [] p l = here
  receive_logs-Reach ((m, now) ∷ rest) p l =
      Reach-trans quote IsHonestRecord
        (Reach-trans quote IsHonestRecord (next here (count 1 0 0 (simp unary_clauses refl))) (
          take_in-Reach quote (from_log_record floats m) signal_logs now (count_stats saw_log p) l
            (log-IsHonest m)))
        (receive_logs-Reach rest _ l)

  pub receive_spans-Reach :
      (spans : List (Option (Span Double) × Time)) (p : Processor) (l : List AssembledExecution)
      → Reach quote IsHonestRecord
          (world p idle l)
          (world (receive_spans floats quote spans p) idle l)
  unfolding receive_spans
  receive_spans-Reach [] p l = here
  receive_spans-Reach ((m, now) ∷ rest) p l =
      Reach-trans quote IsHonestRecord
        (Reach-trans quote IsHonestRecord (next here (count 0 1 0 (simp unary_clauses refl))) (
          take_in-Reach quote (from_span floats m) signal_traces now (count_stats saw_span p) l
            (span-IsHonest m)))
        (receive_spans-Reach rest _ l)

  module _ {S : Type 0} (sink : Option (Sink S)) (now : Time) (order : List (String × Execution))
      (p : Processor) (s : S) (l : List AssembledExecution) where
    pub consume_log_records-Traced :
        (records : List (Option (LogRecord Double) × Time))
        → Traced quote IsHonestRecord sink p idle l s
            (consume_log_records floats quote sink records now order p s)
    unfolding consume_log_records
    consume_log_records-Traced records =
        then_Traced quote sink p (receive_logs floats quote records p) l s
          (assemble_expired quote sink now order (receive_logs floats quote records p) s)
          (receive_logs-Reach records p l)
          (assemble_expired-Traced quote sink now order (receive_logs floats quote records p) s l)

    pub consume_spans-Traced :
        (spans : List (Option (Span Double) × Time))
        → Traced quote IsHonestRecord sink p idle l s
            (consume_spans floats quote sink spans now order p s)
    unfolding consume_spans
    consume_spans-Traced spans =
        then_Traced quote sink p (receive_spans floats quote spans p) l s
          (assemble_expired quote sink now order (receive_spans floats quote spans p) s)
          (receive_spans-Reach spans p l)
          (assemble_expired-Traced quote sink now order (receive_spans floats quote spans p) s l)
