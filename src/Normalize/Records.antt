-- ===== src/Normalize/Records.antt =====
-- `FromLogRecord` and `FromSpan`. `none` is the result `false`: not a tool call.
pub mod Honest
pub mod Views
pub mod Privacy
pub mod Times
use evidra_agentgateway_brid.Prelude.{
  ℕ, String, Bool, true, false, ◌&&◌, not, Option, none, some, List, [], ◌∷◌, ◌==◌, nat_eq,
  if◌then◌else◌,
}
use evidra_agentgateway_brid.Prelude.Int.{ℤ, pos, is_zero, sub_time, milliseconds}
use evidra_agentgateway_brid.Dict.{Dict}
use evidra_agentgateway_brid.Observation.{Execution}
use evidra_agentgateway_brid.Telemetry.{Floats, LogRecord, Span, StatusCode, unset}
use evidra_agentgateway_brid.Normalize.Attributes.{
  first_non_empty, value_at, attr, hex_id, timestamp_from_unix_nano, attribute_map,
}
use evidra_agentgateway_brid.Normalize.Verdict.{
  is_tool_call, status_from, log_completed, payload_availability, classify, source_from,
  span_kind_name, duration_ms,
}

-- `return ex, ex.Tool != ""`
unfoldable pub with_tool : Execution → Option Execution
with_tool ex = if ex.tool == "" then none else some ex

module _ (floats : Floats) where
  open floats use {Double}

  -- The record that `FromLogRecord` builds from the attributes.
  unfoldable pub log_execution : LogRecord Double → Dict String → Execution
  log_execution r attrs =
      let (args, result) = payload_availability attrs in
      let (status, error_type, error_code) = status_from attrs unset (log_completed attrs) in
      let (correlation, operation_id, detail) = classify attrs in
      record {
        trace_id = first_non_empty (hex_id r.trace_id ∷ value_at "trace.id" attrs ∷ []);
        span_id = first_non_empty (hex_id r.span_id ∷ value_at "span.id" attrs ∷ []);
        parent_span_id = "";
        span_kind = "";
        operation_id = operation_id;
        correlation = correlation;
        correlation_detail = detail;
        target = value_at "mcp.target" attrs;
        tool = attr attrs "gen_ai.tool.name";
        started_at = timestamp_from_unix_nano r.time_unix_nano;
        finished_at = pos 0;
        duration_ms =
            duration_ms floats (value_at "duration" attrs ∷ value_at "duration_ms" attrs ∷ []);
        status = status;
        error_type = error_type;
        error_code = error_code;
        arguments_fingerprint = "";
        arguments_fingerprint_status = args;
        result_fingerprint = "";
        result_fingerprint_status = result;
        read_only_declared = false;
        read_only_annotation_known = false;
        annotations_verified = false;
        source = source_from attrs "otlp_logs";
        seen_from = "logs" ∷ [];
        disagreements = [];
      }

  unfoldable pub from_log_record : Option (LogRecord Double) → Option Execution
  from_log_record none = none
  from_log_record (some r) =
      let attrs = attribute_map floats r.attributes in
      if is_tool_call attrs then with_tool (log_execution r attrs) else none

  span_code : Option StatusCode → StatusCode
  span_code none = unset
  span_code (some code) = code

  -- The record that `FromSpan` builds from the attributes.
  unfoldable pub span_execution : Span Double → Dict String → Execution
  unfolding span_code
  span_execution r attrs =
      let (args, result) = payload_availability attrs in
      let completed = not (nat_eq r.end_time_unix_nano 0) in
      let (status, error_type, error_code) = status_from attrs (span_code r.status) completed in
      let (correlation, operation_id, detail) = classify attrs in
      let started_at = timestamp_from_unix_nano r.start_time_unix_nano in
      let finished_at = timestamp_from_unix_nano r.end_time_unix_nano in
      record {
        trace_id = first_non_empty (hex_id r.trace_id ∷ value_at "trace.id" attrs ∷ []);
        span_id = first_non_empty (hex_id r.span_id ∷ value_at "span.id" attrs ∷ []);
        parent_span_id = hex_id r.parent_span_id;
        span_kind = span_kind_name r.kind;
        operation_id = operation_id;
        correlation = correlation;
        correlation_detail = detail;
        target = value_at "mcp.target" attrs;
        tool = attr attrs "gen_ai.tool.name";
        started_at = started_at;
        finished_at = finished_at;
        duration_ms =
            if not (is_zero started_at) && not (is_zero finished_at)
            then milliseconds (sub_time finished_at started_at)
            else pos 0;
        status = status;
        error_type = error_type;
        error_code = error_code;
        arguments_fingerprint = "";
        arguments_fingerprint_status = args;
        result_fingerprint = "";
        result_fingerprint_status = result;
        read_only_declared = false;
        read_only_annotation_known = false;
        annotations_verified = false;
        source = source_from attrs "otlp_traces";
        seen_from = "traces" ∷ [];
        disagreements = [];
      }

  unfoldable pub from_span : Option (Span Double) → Option Execution
  from_span none = none
  from_span (some r) =
      let attrs = attribute_map floats r.attributes in
      if is_tool_call attrs then with_tool (span_execution r attrs) else none
