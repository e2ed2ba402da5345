-- ===== src/Server/Received.antt =====
-- The signals that a request carries, and what becomes of their keys in the processor.
use mathlib.Core.Path.{subst}
use evidra_agentgateway_brid.Prelude.{
  ℕ, String, ◌≡◌, ◌≢◌, refl, sym, true, ◌⊎◌, inl, inr, Option, none, some, List, [], ◌∷◌, Elem,
}
use evidra_agentgateway_brid.Observation.{Time, Execution, join_key}
use evidra_agentgateway_brid.Telemetry.{Floats, LogRecord, Span}
use evidra_agentgateway_brid.Normalize.Records.{from_log_record, from_span}
use evidra_agentgateway_brid.Bridge.Merge.Attribution.{IsHonestRecord}
use evidra_agentgateway_brid.Bridge.Processor.Interleaving.Held.{kept}
use evidra_agentgateway_brid.Bridge.Processor.Interleaving.Retention.{kept-Reach}
use evidra_agentgateway_brid.Bridge.Consume.{
  receive_logs, receive_spans, consume_log_records, consume_spans,
}
use evidra_agentgateway_brid.Bridge.Consume.Runs.{assemble_expired-Traced}
use evidra_agentgateway_brid.Bridge.Consume.Received.{receive_logs-kept, receive_spans-kept}
use evidra_agentgateway_brid.Otlp.{
  ExportRequest, Consumer, HttpRequest, flatten, serve_consumed, serve_decoded, serve_http,
  serve_logs, serve_traces, export,
}
use evidra_agentgateway_brid.Service.{jsonl_sink, Service, answer}
use evidra_agentgateway_brid.Service.Orderly.{serve_all-kept}
use evidra_agentgateway_brid.Server.{
  Platform, Running, Request, http, grpc_logs, grpc_traces, stamp_all, called, logs_consumer,
  traces_consumer, serve_path, serve_request, serve_requests,
}
use evidra_agentgateway_brid.Server.Calls.{Answers, requests-Answers}

-- The request is a POST of a body that protobuf reads as this export.
abbrev pub IsPosted :
    {Record : Type 0}
    → (List ℕ → Option (ExportRequest Record))
    → HttpRequest
    → ExportRequest Record
    → Type 0
IsPosted unmarshal r req =
    (body : List ℕ) × (r.method ≡ "POST") × (r.body ≡ inr body) × (unmarshal body ≡ some req)

serve_consumed-state :
    {S : Type 0} (failure : String) (o : Option String × S) → (serve_consumed failure o).1 ≡ o.1
unfolding serve_consumed
serve_consumed-state failure (none, s) = refl
serve_consumed-state failure (some e, s) = refl

serve_http-posted :
    {Record S : Type 0} (undecoded failure : String)
    (unmarshal : List ℕ → Option (ExportRequest Record)) (consumer : Consumer Record S)
    (r : HttpRequest) (s : S) (req : ExportRequest Record)
    → IsPosted unmarshal r req
    → (serve_http undecoded failure unmarshal (some consumer) r s).1 ≡ (consumer s (flatten req)).1
unfolding serve_http serve_decoded
serve_http-posted undecoded failure unmarshal consumer r s req (body, p, b, m) =
    rw (p, b, m) (serve_consumed-state failure (consumer s (flatten req)))

Elem-stamp_all :
    {A K : Type 0} (tick : K → Time × K) (l : List A) (k : K) (m : A)
    → Elem m l
    → (now : Time) × Elem ((m, now)) (stamp_all tick l k).0
unfolding stamp_all
Elem-stamp_all tick [] k m i = absurd i
Elem-stamp_all tick (r ∷ rest) k m (inl i) = ((tick k).0, inl (λ j. (i j, (tick k).0)))
Elem-stamp_all tick (r ∷ rest) k m (inr i) =
    let (now, j) = Elem-stamp_all tick rest (tick k).1 m i in (now, inr j)

module _ (floats : Floats) (quote : String → String) {C F K : Type 0}
    (platform : Platform (floats.Double) C F K) where
  open floats use {Double}
  open platform use {file, decimal, marshal, ctx_err, tick, visit, unmarshal_logs, unmarshal_traces}

  -- One of the records of the export is normalized to this one.
  abbrev pub HasLog : ExportRequest (Option (LogRecord Double)) → Execution → Type 0
  HasLog req ex =
      (m : Option (LogRecord Double)) × Elem m (flatten req) × (from_log_record floats m ≡ some ex)

  abbrev pub HasSpan : ExportRequest (Option (Span Double)) → Execution → Type 0
  HasSpan req ex =
      (m : Option (Span Double)) × Elem m (flatten req) × (from_span floats m ≡ some ex)

  -- The request brings a signal of a tool call to the processor.
  abbrev pub Carries : Request Double → Execution → Type 0
  Carries (grpc_logs req) ex = HasLog req ex
  Carries (grpc_traces req) ex = HasSpan req ex
  Carries (http path r) ex =
      ((path ≡ "/v1/logs")
        × ((req : ExportRequest (Option (LogRecord Double))) × IsPosted unmarshal_logs r req
            × HasLog req ex))
      ⊎ ((path ≡ "/v1/traces")
          × ((req : ExportRequest (Option (Span Double))) × IsPosted unmarshal_traces r req
              × HasSpan req ex))

  Answers-kept :
      (s t : Running C F K) (k : String)
      → Answers floats quote platform s t
      → kept k s.service.processor ≡ true
      → kept k t.service.processor ≡ true
  Answers-kept s t k (calls, e, v) h =
      subst (λ (u : Service C F). kept k u.processor ≡ true) (sym e)
        (serve_all-kept floats quote file decimal marshal ctx_err calls s.service k h)

  module _ (ex : Execution) (n : join_key ex.trace_id ex.span_id ≢ "") where
    -- The key of the signal is kept by the processor.
    abbrev IsKept : Running C F K → Type 0
    IsKept s = kept (join_key ex.trace_id ex.span_id) s.service.processor ≡ true

    logs_consumer-IsKept :
        (s : Running C F K) (req : ExportRequest (Option (LogRecord Double)))
        → HasLog req ex
        → IsKept (logs_consumer floats quote platform s (flatten req)).1
    unfolding logs_consumer called answer consume_log_records
    logs_consumer-IsKept s req (m, i, e) =
        let records = flatten req in
        let (timed, k) = stamp_all tick records s.clock in
        let (at, j) = Elem-stamp_all tick records s.clock m i in
        let (now, k') = tick k in
        let p = receive_logs floats quote timed s.service.processor in
        let (order, k'') = visit p.active.spans k' in
        let (new, r, w) =
          assemble_expired-Traced quote (some (jsonl_sink file decimal marshal ctx_err)) now order p
            s.service.sink [] in
        kept-Reach quote IsHonestRecord (join_key ex.trace_id ex.span_id)
          (receive_logs-kept floats quote ex n timed s.service.processor m at j e) r

    traces_consumer-IsKept :
        (s : Running C F K) (req : ExportRequest (Option (Span Double)))
        → HasSpan req ex
        → IsKept (traces_consumer floats quote platform s (flatten req)).1
    unfolding traces_consumer called answer consume_spans
    traces_consumer-IsKept s req (m, i, e) =
        let spans = flatten req in
        let (timed, k) = stamp_all tick spans s.clock in
        let (at, j) = Elem-stamp_all tick spans s.clock m i in
        let (now, k') = tick k in
        let p = receive_spans floats quote timed s.service.processor in
        let (order, k'') = visit p.active.spans k' in
        let (new, r, w) =
          assemble_expired-Traced quote (some (jsonl_sink file decimal marshal ctx_err)) now order p
            s.service.sink [] in
        kept-Reach quote IsHonestRecord (join_key ex.trace_id ex.span_id)
          (receive_spans-kept floats quote ex n timed s.service.processor m at j e) r

    request-IsKept :
        (r : Request Double) (s : Running C F K)
        → Carries r ex
        → IsKept (serve_request floats quote platform r s).1
    unfolding serve_request serve_path serve_logs serve_traces export
    request-IsKept (grpc_logs req) s h = logs_consumer-IsKept s req h
    request-IsKept (grpc_traces req) s h = traces_consumer-IsKept s req h
    request-IsKept (http path r) s (inl (t, (req, p, h))) =
        rw
          (
            t,
            serve_http-posted "decode otlp logs" "consume logs" unmarshal_logs
                (logs_consumer floats quote platform) r s req p,
          )
          (logs_consumer-IsKept s req h)
    request-IsKept (http path r) s (inr (t, (req, p, h))) =
        rw
          (
            t,
            serve_http-posted "decode otlp traces" "consume traces" unmarshal_traces
                (traces_consumer floats quote platform) r s req p,
          )
          (traces_consumer-IsKept s req h)

    -- A signal of a request that was served is kept.
    pub requests-IsKept :
        (rs : List (Request Double)) (s : Running C F K) (r : Request Double)
        → Elem r rs
        → Carries r ex
        → IsKept (serve_requests floats quote platform rs s).1
    unfolding serve_requests
    requests-IsKept [] s r i h = absurd i
    requests-IsKept (q ∷ rest) s r (inl i) h =
        let t = (serve_request floats quote platform q s).1 in
        Answers-kept t (serve_requests floats quote platform rest t).1
          (join_key ex.trace_id ex.span_id) (requests-Answers floats quote platform rest t)
          (request-IsKept q s (subst (λ z. Carries z ex) i h))
    requests-IsKept (q ∷ rest) s r (inr i) h = requests-IsKept rest _ r i h
