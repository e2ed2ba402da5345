-- ===== src/Normalize/Verdict.antt =====
-- What agentgateway.go concludes from the attributes: whether a signal is a tool call, its status, what
-- payload was offered, its duration and its source.
pub mod Success
use evidra_agentgateway_brid.Prelude.{
  ℕ, String, Bool, true, false, ◌&&◌, ◌||◌, not, Option, none, some, List, [], ◌∷◌, ◌==◌,
  if◌then◌else◌,
}
use evidra_agentgateway_brid.Prelude.Int.{ℤ, pos}
use evidra_agentgateway_brid.Text.{
  ◌⧺◌, codes, to_lower, contains, trim_space, trim_prefix, trim_suffix,
}
use evidra_agentgateway_brid.Dict.{Dict}
use evidra_agentgateway_brid.Observation.{
  Correlation, Status, success, error, cancelled, unknown, Availability, not_emitted, refused_raw,
  Source, classify_operation,
}
use evidra_agentgateway_brid.Telemetry.{Floats, StatusCode, unset, ok}
use evidra_agentgateway_brid.Telemetry.{
  SpanKind, unspecified, internal, server, client, producer, consumer,
}
use evidra_agentgateway_brid.Normalize.Attributes.{
  first_non_empty, value_at, attr, text_member, operation_ids,
}

abbrev pub raw_payload_keys : List String
raw_payload_keys = "gen_ai.tool.call.arguments" ∷ "gen_ai.tool.call.result" ∷ []

abbrev pub caller_fault_codes : List String
caller_fault_codes = "-32700" ∷ "-32600" ∷ "-32601" ∷ "-32602" ∷ "-32002" ∷ []

unfoldable pub is_tool_call : Dict String → Bool
is_tool_call attrs =
    attr attrs "mcp.method.name" == "tools/call"
    && (value_at "mcp.resource.type" attrs == "" || value_at "mcp.resource.type" attrs == "tool")

abbrev pub code_is_error : StatusCode → Bool
code_is_error StatusCode.error = true
code_is_error _ = false

abbrev pub code_is_ok : StatusCode → Bool
code_is_ok ok = true
code_is_ok _ = false

-- `statusFrom`, from the two attributes that it reads.
unfoldable pub status_of : String → String → StatusCode → Bool → Status × String × String
status_of err_type code span_code completed =
    if contains (to_lower err_type) (codes "cancel")
    then (cancelled, err_type, code)
    else if not (err_type == "") && not (err_type == "_OTHER")
    then (error, err_type, code)
    else if not (code == "")
    then (if text_member code caller_fault_codes
        then (error, "caller_jsonrpc_" ⧺ trim_prefix code "-", code)
        else (error, first_non_empty (err_type ∷ ("jsonrpc_" ⧺ code) ∷ []), code))
    else if code_is_error span_code
    then (error, first_non_empty (err_type ∷ "span_error" ∷ []), code)
    else if err_type == "_OTHER"
    then (error, err_type, code)
    else if completed || code_is_ok span_code
    then (success, "", code)
    else (unknown, "", "")

unfoldable pub status_from : Dict String → StatusCode → Bool → Status × String × String
unfolding status_of
status_from attrs span_code completed =
    status_of (attr attrs "error.type") (attr attrs "rpc.response.status_code") span_code completed

unfoldable pub log_completed : Dict String → Bool
log_completed attrs =
    not (value_at "duration" attrs == "")
    || not (value_at "duration_ms" attrs == "")
    || not (value_at "http.status" attrs == "")
    || not (value_at "http.status_code" attrs == "")

-- The loop over `rawPayloadKeys`.
unfoldable pub availability_loop :
    Dict String → List String → Availability × Availability → Availability × Availability
availability_loop attrs [] found = found
availability_loop attrs (key ∷ rest) (args, result) = availability_loop attrs rest (
    if value_at key attrs == ""
    then (args, result)
    else if contains (codes key) (codes "arguments")
    then (refused_raw, result)
    else (args, refused_raw))

unfoldable pub payload_availability : Dict String → Availability × Availability
unfolding availability_loop
payload_availability attrs = availability_loop attrs raw_payload_keys (not_emitted, not_emitted)

unfoldable pub classify : Dict String → Correlation × String × String
classify attrs = classify_operation (operation_ids attrs)

unfoldable pub source_from : Dict String → String → Source
source_from attrs transport = record {
  observer_type = "agentgateway_otlp";
  observer_id = "";
  observer_version = "";
  transport = transport;
  service_name = value_at "service.name" attrs;
  protocol_version = attr attrs "mcp.protocol.version";
  network_transport = value_at "network.transport" attrs;
  session_id = attr attrs "mcp.session.id";
}

unfoldable pub span_kind_name : SpanKind → String
span_kind_name client = "client"
span_kind_name server = "server"
span_kind_name internal = "internal"
span_kind_name producer = "producer"
span_kind_name consumer = "consumer"
span_kind_name unspecified = ""

module _ (floats : Floats) where
  open floats use {parse_float, to_int64}

  -- `durationMS`
  unfoldable pub duration_ms : List String → ℤ
  duration_ms [] = pos 0
  duration_ms (v ∷ vs) =
      let w = trim_space (trim_suffix v "ms") in
      let rest = duration_ms vs in
      if w == "" then rest else elim (parse_float w) [ none ↦ rest | some f ↦ to_int64 f ]
