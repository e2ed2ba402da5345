-- ===== src/Server/Calls.antt =====
-- Whatever requests are served, the service has answered a series of calls.
use mathlib.Core.Path.{subst}
use evidra_agentgateway_brid.Prelude.{
  ℕ, String, ◌≡◌, refl, sym, ap, ◌∙◌, inl, inr, Option, some, List, [], ◌∷◌, ◌++◌, text_cases,
}
use evidra_agentgateway_brid.Telemetry.{Floats, LogRecord, Span}
use evidra_agentgateway_brid.Otlp.{
  ExportRequest, Consumer, HttpRequest, flatten, serve_http, serve_logs, serve_traces, export,
}
use evidra_agentgateway_brid.Otlp.Exports.{serve_http-export}
use evidra_agentgateway_brid.Service.{Service, Call, export_logs, export_spans, serve_all}
use evidra_agentgateway_brid.Service.Orderly.{Fits, Orderly, Orderly-append}
use evidra_agentgateway_brid.Dict.{Dict}
use evidra_agentgateway_brid.Observation.{Execution}
use evidra_agentgateway_brid.Bridge.Processor.Interleaving.Coherent.{Visits}
use evidra_agentgateway_brid.Bridge.Consume.{receive_logs, receive_spans}
use evidra_agentgateway_brid.Server.{
  Platform, Running, Request, http, grpc_logs, grpc_traces, stamp_all, called, logs_consumer,
  traces_consumer, serve_path, serve_request, serve_requests,
}

module _ (floats : Floats) (quote : String → String) {C F K : Type 0}
    (platform : Platform (floats.Double) C F K) where
  open floats use {Double}
  open platform use {file, decimal, marshal, ctx_err, visit, unmarshal_logs, unmarshal_traces}

  -- The service after a series of calls.
  abbrev pub served : List (Call Double) → Service C F → Service C F
  served = serve_all floats quote file decimal marshal ctx_err

  -- What Go promises of a range over a map: it visits exactly the map's entries.
  abbrev pub VisitsAll : Type 0
  VisitsAll = (spans : Dict Execution) (k : K) → Visits (visit spans k).0 spans

  abbrev OrderlyFrom : List (Call Double) → Service C F → Type 0
  OrderlyFrom = Orderly floats quote file decimal marshal ctx_err

  -- The service has gone from one state to the other by a series of calls.
  abbrev pub Answers : Running C F K → Running C F K → Type 0
  Answers s t =
      (calls : List (Call Double)) × (t.service ≡ served calls s.service)
      × (VisitsAll → OrderlyFrom calls s.service)

  served-append :
      (calls more : List (Call Double)) (v : Service C F)
      → served (calls ++ more) v ≡ served more (served calls v)
  unfolding serve_all
  served-append [] more v = refl
  served-append (c ∷ calls) more v = served-append calls more _

  pub Answers-trans : (s t u : Running C F K) → Answers s t → Answers t u → Answers s u
  Answers-trans s t u (calls, e, v) (more, f, w) = (
    calls ++ more,
    f ∙ (ap (served more) e ∙ sym (served-append calls more s.service)),
    λ a.
        Orderly-append floats quote file decimal marshal ctx_err calls more s.service (v a)
          (subst (OrderlyFrom more) e (w a)),
  )

  pub Answers-self : (s : Running C F K) → Answers s s
  unfolding serve_all
  Answers-self s = ([], refl, λ a. tt)

  pub called-Answers :
      (call : Call Double) (k : K) (s : Running C F K)
      → (VisitsAll → Fits floats quote file decimal marshal ctx_err call s.service.processor)
      → Answers s (called floats quote platform call k s.service).1
  unfolding called serve_all
  called-Answers call k s f = (call ∷ [], refl, λ a. (f a, tt))

  logs-Answers :
      (s : Running C F K) (records : List (Option (LogRecord Double)))
      → Answers s (logs_consumer floats quote platform s records).1
  unfolding logs_consumer
  logs-Answers s records =
      let (timed, k) = stamp_all platform.tick records s.clock in
      let (now, k') = platform.tick k in
      let (order, k'') =
        platform.visit (receive_logs floats quote timed s.service.processor).active.spans k' in
      called-Answers (export_logs timed now order) k'' s
        (λ a. a (receive_logs floats quote timed s.service.processor).active.spans k')

  traces-Answers :
      (s : Running C F K) (spans : List (Option (Span Double)))
      → Answers s (traces_consumer floats quote platform s spans).1
  unfolding traces_consumer
  traces-Answers s spans =
      let (timed, k) = stamp_all platform.tick spans s.clock in
      let (now, k') = platform.tick k in
      let (order, k'') =
        platform.visit (receive_spans floats quote timed s.service.processor).active.spans k' in
      called-Answers (export_spans timed now order) k'' s
        (λ a. a (receive_spans floats quote timed s.service.processor).active.spans k')

  -- An HTTP handler leaves what the consumer leaves, or what was there.
  handler-Answers :
      {Record : Type 0} (undecoded failure : String)
      (unmarshal : List ℕ → Option (ExportRequest Record))
      (consumer : Consumer Record (Running C F K)) (r : HttpRequest) (s : Running C F K)
      → ((records : List Record) → Answers s (consumer s records).1)
      → Answers s (serve_http undecoded failure unmarshal (some consumer) r s).1
  unfolding export
  handler-Answers undecoded failure unmarshal consumer r s h =
      elim (serve_http-export undecoded failure unmarshal (some consumer) r s) [
        | inl (body, req, p, b, m, i, e) ↦
            let (calls, f, v) = h (flatten req) in
            (calls, ap (λ (t : Running C F K). t.service) e ∙ f, v)
        | inr (x, e) ↦
            let (calls, f, v) = Answers-self s in
            (calls, ap (λ (t : Running C F K). t.service) e ∙ f, v)
      ]

  path-Answers :
      (path : String) (r : HttpRequest) (s : Running C F K)
      → Answers s (serve_path floats quote platform path r s).1
  unfolding serve_path serve_logs serve_traces
  path-Answers path r s = elim (text_cases path "/v1/logs") [
    | inl (t, p) ↦
        rw t
          (handler-Answers "decode otlp logs" "consume logs" unmarshal_logs _ r s (logs-Answers s))
    | inr (t, n) ↦ elim (text_cases path "/v1/traces") [
      | inl (u, p) ↦
          rw (t, u)
            (handler-Answers "decode otlp traces" "consume traces" unmarshal_traces _ r s
              (traces-Answers s))
      | inr (u, m) ↦ elim (text_cases path "/healthz") [
        | inl (x, p) ↦ rw (t, u, x) (Answers-self s)
        | inr (x, l) ↦ elim (text_cases path "/stats") [
          | inl (y, p) ↦ rw (t, u, x, y) (Answers-self s)
          | inr (y, j) ↦ rw (t, u, x, y) (Answers-self s)
        ]
      ]
    ]
  ]

  request-Answers :
      (r : Request Double) (s : Running C F K)
      → Answers s (serve_request floats quote platform r s).1
  unfolding serve_request export
  request-Answers (http path r) s = path-Answers path r s
  request-Answers (grpc_logs req) s = logs-Answers s (flatten req)
  request-Answers (grpc_traces req) s = traces-Answers s (flatten req)

  -- Whatever requests arrive at the servers, the service has answered a series of exports.
  pub requests-Answers :
      (rs : List (Request Double)) (s : Running C F K)
      → Answers s (serve_requests floats quote platform rs s).1
  unfolding serve_requests
  requests-Answers [] s = Answers-self s
  requests-Answers (r ∷ rest) s =
      let t = (serve_request floats quote platform r s).1 in
      Answers-trans s t (serve_requests floats quote platform rest t).1 (request-Answers r s)
        (requests-Answers rest t)
