-- ===== src/Otlp.antt =====
-- internal/otlphttp/handler.go and internal/otlpgrpc/server.go: an export is decoded, flattened and
-- handed to the processor. `Record` is a log record or a span, and `Consumer` the method of the
-- processor, with a state of its own; the context is part of that state.
pub mod Exports
use evidra_agentgateway_brid.Prelude.{
  ℕ, String, ◌⊎◌, inl, inr, Option, none, some, List, [], ◌∷◌, ◌++◌, ◌==◌, if◌then◌else◌,
}

-- `ExportLogsServiceRequest` and `ExportTraceServiceRequest`: the records of the scopes of the
-- resources. A request that was decoded has no nil level.
abbrev pub ExportRequest : Type 0 → Type 0
ExportRequest Record = List (List (List Record))

abbrev pub Consumer : Type 0 → Type 0 → Type 0
Consumer Record S = S → List Record → Option String × S

pub record HttpRequest : Type 0 where
  pub method : String
  -- what `io.ReadAll` gives
  pub body : String ⊎ List ℕ

-- The status code and what `http.Error` writes.
pub record HttpResponse : Type 0 where
  pub status : ℕ
  pub message : Option String

abbrev pub status_accepted : ℕ
status_accepted = 202

abbrev pub status_bad_request : ℕ
status_bad_request = 400

abbrev pub status_method_not_allowed : ℕ
status_method_not_allowed = 405

abbrev pub status_internal_server_error : ℕ
status_internal_server_error = 500

abbrev pub http_error : String → ℕ → HttpResponse
http_error message status = record { status = status; message = some message }

-- `ServeHTTP` behind the consumer's call.
unfoldable pub serve_consumed : {S : Type 0} → String → Option String × S → HttpResponse × S
serve_consumed failure (some e, s) = (http_error failure status_internal_server_error, s)
serve_consumed failure (none, s) = (record { status = status_accepted; message = none }, s)

module _ {Record : Type 0} where
  -- The inner loop: the records of one resource.
  unfoldable pub flatten_scopes : List (List Record) → List Record
  flatten_scopes [] = []
  flatten_scopes (scope ∷ rest) = scope ++ flatten_scopes rest

  unfoldable pub flatten : ExportRequest Record → List Record
  unfolding flatten_scopes
  flatten [] = []
  flatten (resource ∷ rest) = flatten_scopes resource ++ flatten rest

  module _ {S : Type 0} where
    -- `if h.consumer != nil { … }`
    unfoldable pub serve_decoded :
        String → Option (Consumer Record S) → ExportRequest Record → S → HttpResponse × S
    unfolding serve_consumed
    serve_decoded failure none req s = (record { status = status_accepted; message = none }, s)
    serve_decoded failure (some consumer) req s = serve_consumed failure (consumer s (flatten req))

    -- `ServeHTTP` of both handlers, with the texts of their errors; `unmarshal` is `proto.Unmarshal`.
    unfoldable pub serve_http :
        String
        → String
        → (List ℕ → Option (ExportRequest Record))
        → Option (Consumer Record S)
        → HttpRequest
        → S
        → HttpResponse × S
    unfolding serve_decoded
    serve_http undecoded failure unmarshal consumer r s =
        if r.method == "POST"
        then elim r.body [
          | inl e ↦ (http_error "read body" status_bad_request, s)
          | inr body ↦ elim (unmarshal body) [
            | none ↦ (http_error undecoded status_bad_request, s)
            | some req ↦ serve_decoded failure consumer req s
          ]
        ]
        else (record { status = status_method_not_allowed; message = none }, s)

    unfoldable pub serve_logs :
        (List ℕ → Option (ExportRequest Record))
        → Option (Consumer Record S)
        → HttpRequest
        → S
        → HttpResponse × S
    serve_logs = serve_http "decode otlp logs" "consume logs"

    unfoldable pub serve_traces :
        (List ℕ → Option (ExportRequest Record))
        → Option (Consumer Record S)
        → HttpRequest
        → S
        → HttpResponse × S
    serve_traces = serve_http "decode otlp traces" "consume traces"

    -- `Export` of both gRPC services: the error, where `none` is the empty response.
    unfoldable pub export :
        Option (Consumer Record S) → ExportRequest Record → S → Option String × S
    export none req s = (none, s)
    export (some consumer) req s = consumer s (flatten req)
