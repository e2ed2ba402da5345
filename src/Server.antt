-- ===== src/Server.antt =====
-- cmd/bridge/main.go: the servers that `run` starts and what each request does. The gRPC server has
-- both services of internal/otlpgrpc/server.go and the HTTP mux four routes; all lead to the one
-- processor. Requests are served one after the other here; Bridge.Processor.Interleaving has the rest.
pub mod Calls
pub mod Received
use evidra_agentgateway_brid.Prelude.{
  ℕ, String, ◌⊎◌, Option, none, some, List, [], ◌∷◌, ◌==◌, if◌then◌else◌,
}
use evidra_agentgateway_brid.Dict.{Dict}
use evidra_agentgateway_brid.Observation.{Time, Execution}
use evidra_agentgateway_brid.Telemetry.{Floats, LogRecord, Span}
use evidra_agentgateway_brid.Bridge.State.{Stats, Processor, stats_of}
use evidra_agentgateway_brid.Bridge.Processor.{Outcome, flush}
use evidra_agentgateway_brid.Bridge.Consume.{
  receive_logs, receive_spans, consume_log_records, consume_spans,
}
use evidra_agentgateway_brid.Otlp.{
  ExportRequest, Consumer, HttpRequest, HttpResponse, serve_logs, serve_traces, export,
}
use evidra_agentgateway_brid.Sink.{Bytes, JsonlFile}
use evidra_agentgateway_brid.Service.{SinkState, Service, Call, export_logs, export_spans, answer}

-- What a handler gives: the status, the content type if it sets one, and the text that it writes or
-- hands to `http.Error`.
pub record HttpReply : Type 0 where
  pub status : ℕ
  pub content_type : Option String
  pub body : Option String

-- What the process runs on: the file of the sink with `json.Marshal` and the contexts, the clock, the
-- order in which Go visits the map of spans, the decoder of protobuf, the encoder of `/stats`, and what
-- `http.ServeMux` answers to a path that has no route.
pub record Platform (D C F K : Type 0) : Type 0 where
  pub file : JsonlFile F
  pub decimal : ℕ → String
  pub marshal : Execution → String ⊎ Bytes
  pub ctx_err : C → Option String × C
  pub tick : K → Time × K
  pub visit : Dict Execution → K → List (String × Execution) × K
  pub unmarshal_logs : List ℕ → Option (ExportRequest (Option (LogRecord D)))
  pub unmarshal_traces : List ℕ → Option (ExportRequest (Option (Span D)))
  pub encode_stats : Stats → String
  pub unrouted : String → HttpRequest → HttpReply

-- The service with the state of clock and map order.
pub record Running (C F K : Type 0) : Type 0 where
  pub service : Service C F
  pub clock : K

-- A request to one of the servers: an HTTP request to a path, or a call of one of the gRPC services.
pub data Request (D : Type 0) : Type 0 where
  http : String → HttpRequest → Request D
  grpc_logs : ExportRequest (Option (LogRecord D)) → Request D
  grpc_traces : ExportRequest (Option (Span D)) → Request D

-- The reply over HTTP, or the error of a gRPC call.
pub data Reply : Type 0 where
  http_reply : HttpReply → Reply
  grpc_reply : Option String → Reply

abbrev pub reply_of : HttpResponse → HttpReply
reply_of r = record { status = r.status; content_type = none; body = r.message }

-- The time of the arrival of each record.
unfoldable pub stamp_all : {A K : Type 0} → (K → Time × K) → List A → K → List (A × Time) × K
stamp_all tick [] k = ([], k)
stamp_all tick (r ∷ rest) k =
    let (now, k') = tick k in let (others, k'') = stamp_all tick rest k' in ((r, now) ∷ others, k'')

module _ (floats : Floats) (quote : String → String) {C F K : Type 0}
    (platform : Platform (floats.Double) C F K) where
  open floats use {Double}
  open platform use {
    file, decimal, marshal, ctx_err, tick, visit, unmarshal_logs, unmarshal_traces, encode_stats,
    unrouted,
  }

  -- A call of the processor by one of the servers: its error, and what it leaves.
  unfoldable pub called : Call Double → K → Service C F → Option String × Running C F K
  called call k v =
      let o = answer floats quote file decimal marshal ctx_err call v in
      (
        o.err,
        record { service = record { processor = o.processor; sink = o.sink_state }; clock = k },
      )

  -- `processor` as the consumer of log records.
  unfoldable pub logs_consumer : Consumer (Option (LogRecord Double)) (Running C F K)
  unfolding called stamp_all
  logs_consumer s records =
      let (timed, k) = stamp_all tick records s.clock in
      let (now, k') = tick k in
      let (order, k'') =
        visit (receive_logs floats quote timed s.service.processor).active.spans k' in
      called (export_logs timed now order) k'' s.service

  -- `processor` as the consumer of spans.
  unfoldable pub traces_consumer : Consumer (Option (Span Double)) (Running C F K)
  unfolding called stamp_all
  traces_consumer s spans =
      let (timed, k) = stamp_all tick spans s.clock in
      let (now, k') = tick k in
      let (order, k'') =
        visit (receive_spans floats quote timed s.service.processor).active.spans k' in
      called (export_spans timed now order) k'' s.service

  -- The handler of `/healthz`.
  abbrev pub health : HttpReply
  health = record { status = 200; content_type = none; body = some "ok\n" }

  -- The handler of `/stats`.
  abbrev pub stats_reply : Processor → HttpReply
  stats_reply p = record {
    status = 200;
    content_type = some "application/json";
    body = some (encode_stats (stats_of p));
  }

  -- `mux`: each route is one path, and the library answers all others.
  unfoldable pub serve_path : String → HttpRequest → Running C F K → HttpReply × Running C F K
  unfolding logs_consumer traces_consumer
  serve_path path r s =
      if path == "/v1/logs"
      then (let o = serve_logs unmarshal_logs (some logs_consumer) r s in (reply_of o.0, o.1))
      else if path == "/v1/traces"
      then (let o = serve_traces unmarshal_traces (some traces_consumer) r s in (reply_of o.0, o.1))
      else if path == "/healthz"
      then (health, s)
      else if path == "/stats"
      then (stats_reply s.service.processor, s)
      else (unrouted path r, s)

  unfoldable pub serve_request : Request Double → Running C F K → Reply × Running C F K
  unfolding serve_path logs_consumer traces_consumer
  serve_request (http path r) s = let o = serve_path path r s in (http_reply o.0, o.1)
  serve_request (grpc_logs req) s =
      let o = export (some logs_consumer) req s in (grpc_reply o.0, o.1)
  serve_request (grpc_traces req) s =
      let o = export (some traces_consumer) req s in (grpc_reply o.0, o.1)

  unfoldable pub serve_requests : List (Request Double) → Running C F K → List Reply × Running C F K
  unfolding serve_request
  serve_requests [] s = ([], s)
  serve_requests (r ∷ rest) s =
      let o = serve_request r s in
      let others = serve_requests rest o.1 in (o.0 ∷ others.0, others.1)
