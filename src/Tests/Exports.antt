-- ===== src/Tests/Exports.antt =====
-- Exports over HTTP, and telemetry that the processor consumes.
use evidra_agentgateway_brid.Prelude.{
  ℕ, String, ◌≢◌, sym, ◌∙◌, ◌≡◌, refl, true, ◌⊎◌, inl, Option, none, some, List, [], ◌∷◌, ◌++◌, inr,
  length, leb, if◌then◌else◌,
}
use evidra_agentgateway_brid.Prelude.Int.{pos}
use evidra_agentgateway_brid.Observation.{Time, Execution, join_key}
use evidra_agentgateway_brid.Bridge.State.{new_processor, no_stats}
use evidra_agentgateway_brid.Bridge.Processor.{Sink}
use evidra_agentgateway_brid.Bridge.Processor.Interleaving.{idle, Reach}
use evidra_agentgateway_brid.Bridge.Processor.Interleaving.Sequential.{world, records, Wrote}
use evidra_agentgateway_brid.Bridge.Merge.Attribution.{IsHonestRecord}
use evidra_agentgateway_brid.Bridge.Consume.{receive_logs, receive_spans, consume_log_records}
use evidra_agentgateway_brid.Bridge.Consume.Counts.{
  Counted, sum_of, is_ignored, is_keyless, log_signal, span_signal, receive-Counted,
}
use evidra_agentgateway_brid.Telemetry.{LogRecord}
use evidra_agentgateway_brid.Bridge.Consume.Received.{consume_log_records-kept}
use evidra_agentgateway_brid.Bridge.Processor.Interleaving.Logged.{logged}
use evidra_agentgateway_brid.Bridge.Processor.Interleaving.Held.{kept}
use evidra_agentgateway_brid.Bridge.Assembly.{AssembledExecution}
use evidra_agentgateway_brid.Otlp.{
  ExportRequest, Consumer, HttpRequest, flatten_scopes, flatten, serve_consumed, serve_decoded,
  serve_http, serve_logs, serve_traces,
}
use evidra_agentgateway_brid.Otlp.Exports.{IsExported, IsTurnedAway, serve_http-export}
use evidra_agentgateway_brid.Tests.Values.{quote}
use evidra_agentgateway_brid.Tests.Telemetry.{whole, log, span, log_result, program}

-- A consumer that keeps the records, three at most.
abbrev shelf : Option (Consumer ℕ (List ℕ))
shelf =
    some (λ s records.
      if leb (length (s ++ records)) 3 then (none, s ++ records) else (some "full", s))

-- A body is one scope with the records that it lists; an empty one is not a message.
abbrev unmarshal : List ℕ → Option (ExportRequest ℕ)
unmarshal [] = none
unmarshal (x ∷ xs) = some (((x ∷ xs) ∷ []) ∷ [])

abbrev posted : HttpRequest
posted = record { method = "POST"; body = inr (4 ∷ 5 ∷ []) }

answers :
    ((serve_logs unmarshal shelf posted []).1 ≡ 4 ∷ 5 ∷ [])
    × ((serve_logs unmarshal shelf posted []).0.status ≡ 202)
    × ((serve_traces unmarshal shelf posted (1 ∷ 2 ∷ [])).0.message ≡ some "consume traces")
    × ((serve_logs unmarshal shelf (record posted { method = "GET" }) []).0.status ≡ 405)
    × ((serve_logs unmarshal shelf (record posted { body = inr [] }) []).0.status ≡ 400)
unfolding flatten_scopes flatten serve_consumed serve_decoded serve_http serve_logs serve_traces
answers = (refl, refl, refl, refl, refl)

serve_http-export_example :
    let o = serve_http "decode otlp logs" "consume logs" unmarshal shelf posted [] in
    IsExported "decode otlp logs" "consume logs" unmarshal shelf posted [] o
    ⊎ IsTurnedAway "decode otlp logs" "consume logs" unmarshal shelf posted [] o
serve_http-export_example =
    serve_http-export "decode otlp logs" "consume logs" unmarshal shelf posted []

-- A sink that keeps what it is given.
abbrev keeping : Option (Sink (List Execution))
keeping = some (record { write = λ s ex. (none, ex ∷ s) })

abbrev mixed : List (Option (LogRecord ℕ) × Time)
mixed = (some log, pos 6) ∷ (none, pos 7) ∷ []

-- The key of a log that is normalized.
abbrev log_key : String
log_key = join_key log_result.trace_id log_result.span_id

key_ff : ◌≢◌ {A = String} "01ab/ff" ""
key_ff e = cc e

log_keyed : log_key ≡ "01ab/ff"
unfolding program join_key
log_keyed = refl

consume_log_records-kept_example :
    let o = consume_log_records whole quote keeping mixed (pos 20) [] (new_processor (pos 10)) [] in
    (kept log_key o.processor ≡ true)
    × (logged log_key o.processor ≡ true)
    × ((new : List AssembledExecution) × Reach quote IsHonestRecord
          (world (new_processor (pos 10)) idle [])
          (world o.processor idle (new ++ []))
        × Wrote keeping [] (records new) o.sink_state)
unfolding program
consume_log_records-kept_example =
    consume_log_records-kept whole quote log_result (λ e. key_ff (sym log_keyed ∙ e)) keeping
      (pos 20) [] (new_processor (pos 10)) [] [] mixed (some log) (pos 6) (inl refl) refl

receive-Counted_example :
    Counted 2 0
      (sum_of (λ r. is_ignored (log_signal whole quote r)) mixed)
      (sum_of (λ r. is_keyless (log_signal whole quote r)) mixed)
      no_stats
      (receive_logs whole quote mixed (new_processor (pos 10))).stats
    × Counted 0 1
        (sum_of (λ r. is_ignored (span_signal whole quote r)) ((some span, pos 6) ∷ []))
        (sum_of (λ r. is_keyless (span_signal whole quote r)) ((some span, pos 6) ∷ []))
        no_stats
        (receive_spans whole quote ((some span, pos 6) ∷ []) (new_processor (pos 10))).stats
unfolding new_processor
receive-Counted_example =
    receive-Counted whole quote mixed ((some span, pos 6) ∷ []) (new_processor (pos 10))
