-- ===== src/Bridge/Consume/Counts.antt =====
-- The counters of what was received.
use evidra_agentgateway_brid.Prelude.{
  ℕ, ◌+◌, String, ◌≡◌, Option, none, some, List, [], ◌∷◌, ◌==◌, length, if◌then◌else◌, arith,
  text_cases, inl, inr,
}
use evidra_agentgateway_brid.Observation.{Time, Execution, join_key}
use evidra_agentgateway_brid.Telemetry.{Floats, LogRecord, Span}
use evidra_agentgateway_brid.Normalize.Records.{from_log_record, from_span}
use evidra_agentgateway_brid.Bridge.State.{
  Stats, Processor, signal_logs, signal_traces, buffer_key, buffer,
}
use evidra_agentgateway_brid.Bridge.Consume.{
  count_stats, saw_log, saw_span, take_in, receive_logs, receive_spans,
}

-- One for what is no tool call.
abbrev pub is_ignored : Option Execution → ℕ
is_ignored none = 1
is_ignored (some ex) = 0

-- One for a tool call that has no key.
abbrev pub is_keyless : Option Execution → ℕ
is_keyless none = 0
is_keyless (some ex) = if join_key ex.trace_id ex.span_id == "" then 1 else 0

abbrev pub sum_of {ℓ} : {A : Type ℓ} → (A → ℕ) → List A → ℕ
sum_of f [] = 0
sum_of f (x ∷ xs) = f x + sum_of f xs

-- How the counters have moved: what was seen, what of it was ignored, and what had no key. None of the
-- counters of emission has.
pub record Counted (logs spans ignored keyless : ℕ) (s t : Stats) : Type 0 where
  pub log_records_seen : t.log_records_seen ≡ s.log_records_seen + logs
  pub spans_seen : t.spans_seen ≡ s.spans_seen + spans
  pub tool_calls_ignored : t.tool_calls_ignored ≡ s.tool_calls_ignored + ignored
  pub unjoinable_no_span : t.unjoinable_no_span ≡ s.unjoinable_no_span + keyless
  pub emitted : t.emitted ≡ s.emitted
  pub emitted_merged : t.emitted_merged ≡ s.emitted_merged
  pub emitted_log_only : t.emitted_log_only ≡ s.emitted_log_only
  pub emitted_span_only : t.emitted_span_only ≡ s.emitted_span_only
  pub sink_write_failures : t.sink_write_failures ≡ s.sink_write_failures
  pub parents_suppressed : t.parents_suppressed ≡ s.parents_suppressed
  pub correlated : t.correlated ≡ s.correlated
  pub unattributed : t.unattributed ≡ s.unattributed
  pub ambiguous : t.ambiguous ≡ s.ambiguous

module _ (quote : String → String) where
  buffer_key-Counted :
      (key : String) (ex : Execution) (signal : String) (now : Time) (p : Processor)
      → Counted 0 0 0 0 p.stats (buffer_key quote key ex signal now p).stats
  unfolding buffer_key
  buffer_key-Counted key ex signal now p = ground arith

  take_in-Counted :
      (m : Option Execution) (signal : String) (now : Time) (p : Processor)
      → Counted 0 0 (is_ignored m) (is_keyless m) p.stats (take_in quote m signal now p).stats
  unfolding take_in buffer
  take_in-Counted none signal now p = ground arith
  take_in-Counted (some ex) signal now p = elim (text_cases (join_key ex.trace_id ex.span_id) "") [
    | inl (e, t) ↦ rw e (ground arith)
    | inr (e, t) ↦ rw e (buffer_key-Counted (join_key ex.trace_id ex.span_id) ex signal now p)
  ]

module _ (floats : Floats) (quote : String → String) where
  open floats use {Double}

  abbrev pub log_signal : Option (LogRecord Double) × Time → Option Execution
  log_signal (m, now) = from_log_record floats m

  abbrev pub span_signal : Option (Span Double) × Time → Option Execution
  span_signal (m, now) = from_span floats m

  receive_logs-Counted :
      (records : List (Option (LogRecord Double) × Time)) (p : Processor)
      → Counted
          (length records)
          0
          (sum_of (λ r. is_ignored (log_signal r)) records)
          (sum_of (λ r. is_keyless (log_signal r)) records)
          p.stats
          (receive_logs floats quote records p).stats
  unfolding receive_logs
  receive_logs-Counted [] p = ground arith
  receive_logs-Counted ((m, now) ∷ rest) p =
      let q = count_stats saw_log p in
      let u = take_in quote (from_log_record floats m) signal_logs now q in
      let a = take_in-Counted quote (from_log_record floats m) signal_logs now q in
      let b = receive_logs-Counted rest u in ground arith

  receive_spans-Counted :
      (spans : List (Option (Span Double) × Time)) (p : Processor)
      → Counted 0
          (length spans)
          (sum_of (λ r. is_ignored (span_signal r)) spans)
          (sum_of (λ r. is_keyless (span_signal r)) spans)
          p.stats
          (receive_spans floats quote spans p).stats
  unfolding receive_spans
  receive_spans-Counted [] p = ground arith
  receive_spans-Counted ((m, now) ∷ rest) p =
      let q = count_stats saw_span p in
      let u = take_in quote (from_span floats m) signal_traces now q in
      let a = take_in-Counted quote (from_span floats m) signal_traces now q in
      let b = receive_spans-Counted rest u in ground arith

  -- Every record of an export is counted as seen, log records and spans apart; those that are no tool
  -- call are counted as ignored, tool calls without a key as unjoinable, and no counter of emission
  -- moves while they are received.
  pub receive-Counted :
      (records : List (Option (LogRecord Double) × Time))
      (spans : List (Option (Span Double) × Time)) (p : Processor)
      → Counted
          (length records)
          0
          (sum_of (λ r. is_ignored (log_signal r)) records)
          (sum_of (λ r. is_keyless (log_signal r)) records)
          p.stats
          (receive_logs floats quote records p).stats
        × Counted 0
            (length spans)
            (sum_of (λ r. is_ignored (span_signal r)) spans)
            (sum_of (λ r. is_keyless (span_signal r)) spans)
            p.stats
            (receive_spans floats quote spans p).stats
  receive-Counted records spans p = (receive_logs-Counted records p, receive_spans-Counted spans p)
