-- ===== src/Tests/Values.antt =====
-- Test data that the other tests share.
use evidra_agentgateway_brid.Prelude.{String, false, [], ◌∷◌}
use evidra_agentgateway_brid.Prelude.Int.{pos}
use evidra_agentgateway_brid.Text.{◌⧺◌}
use evidra_agentgateway_brid.Observation.{
  correlated, unattributed, success, error, not_emitted, refused_raw, Source, Execution,
}

abbrev pub quote : String → String
quote s = "'" ⧺ (s ⧺ "'")

abbrev pub id_one : String
id_one = "EV-01ARZ3NDEKTSV4RRFFQ69G5FAV"

abbrev pub id_two : String
id_two = "EV-01BX5ZZKBKACTAV9WEVGEMMVRZ"

abbrev pub source : Source
source = record {
  observer_type = "agentgateway_otlp";
  observer_id = "";
  observer_version = "";
  transport = "otlp_traces";
  service_name = "";
  protocol_version = "";
  network_transport = "";
  session_id = "";
}

-- A client span that says nothing about an operation.
abbrev pub client_span : Execution
client_span = record {
  trace_id = "t1";
  span_id = "s2";
  parent_span_id = "s1";
  span_kind = "client";
  operation_id = "";
  correlation = unattributed;
  correlation_detail = "";
  target = "everything";
  tool = "echo";
  started_at = pos 5;
  finished_at = pos 9;
  duration_ms = pos 0;
  status = success;
  error_type = "";
  error_code = "";
  arguments_fingerprint = "";
  arguments_fingerprint_status = not_emitted;
  result_fingerprint = "";
  result_fingerprint_status = not_emitted;
  read_only_declared = false;
  read_only_annotation_known = false;
  annotations_verified = false;
  source = source;
  seen_from = "traces" ∷ [];
  disagreements = [];
}

-- The access log of the same call, under the id of the server span.
abbrev pub access_log : Execution
access_log = record client_span {
  span_id = "s1";
  parent_span_id = "";
  span_kind = "";
  operation_id = id_one;
  correlation = correlated;
  target = "other";
  status = error;
  error_type = "timeout";
  arguments_fingerprint_status = refused_raw;
  seen_from = "logs" ∷ [];
}
