-- ===== src/Tests/Telemetry.antt =====
-- Normalization.
use evidra_agentgateway_brid.Prelude.{
  ℕ, ◌+◌, ◌-◌, ◌/◌, arith, String, ◌≡◌, ◌≢◌, refl, ◌↔◌, ◌⊎◌, inl, inr, true, false, ◌||◌, Option,
  none, some, [], ◌∷◌, eq_iff,
}
use evidra_agentgateway_brid.Prelude.Int.{pos, ◌+ℤ◌, ◌-ℤ◌, int64_of_uint64, milliseconds, sub_time}
use evidra_agentgateway_brid.Text.{
  is_space, trim_space, trim_left, trim_right, split, contains, to_lower, trim_suffix, has_prefix,
  drop,
}
use evidra_agentgateway_brid.Dict.{Dict, get, put, delete}
use evidra_agentgateway_brid.Observation.{
  Execution, success, error, cancelled, classify_operation, valid_operation_id,
  operation_id_pattern,
}
use evidra_agentgateway_brid.Telemetry.{
  Floats, string_value, KeyValue, Attributes, LogRecord, Span, SpanKind, unset,
}
use evidra_agentgateway_brid.Normalize.Attributes.{
  first_non_empty, value_at, attr, first_alias, aliases_of, operation_ids, text_member, hex_id,
  timestamp_from_unix_nano, unix_epoch, attribute_map,
}
use evidra_agentgateway_brid.Normalize.Verdict.{
  is_tool_call, status_from, code_is_error, code_is_ok, log_completed, payload_availability,
  classify, source_from, span_kind_name, duration_ms,
}
use evidra_agentgateway_brid.Normalize.Verdict.Success.{
  status_from-success_iff, status_from-failure,
}
use evidra_agentgateway_brid.Normalize.Records.{
  with_tool, log_execution, from_log_record, span_execution, from_span,
}
use evidra_agentgateway_brid.Normalize.Records.Times.{from_span-times}
use evidra_agentgateway_brid.Normalize.Records.Views.{SameButOpaque, same, opaque}
use evidra_agentgateway_brid.Normalize.Records.Privacy.{from_log_record-opaque, from_span-opaque}
use evidra_agentgateway_brid.Tests.Values.{id_one}

-- Whole milliseconds stand for the floating-point numbers.
abbrev pub whole : Floats
whole = record {
  Double = ℕ;
  format_float = λ n. "1.5";
  parse_float = λ s. none;
  to_int64 = λ n. pos n;
}

abbrev pair : String → String → Option (KeyValue ℕ)
pair k v = some (record { key = k; value = some (string_value v) })

abbrev attributes : Attributes ℕ
attributes =
    pair "mcp.method" "tools/call"
    ∷ pair "mcp.tool.name" "echo"
    ∷ pair "evidra_op" id_one
    ∷ pair "http.status" "200"
    ∷ pair "gen_ai.tool.call.arguments" "secret"
    ∷ none
    ∷ []

abbrev other_attributes : Attributes ℕ
other_attributes =
    pair "mcp.method" "tools/call"
    ∷ pair "mcp.tool.name" "echo"
    ∷ pair "evidra_op" id_one
    ∷ pair "http.status" "500"
    ∷ pair "gen_ai.tool.call.arguments" "hidden"
    ∷ none
    ∷ []

abbrev pub log : LogRecord ℕ
log = record {
  trace_id = 1 ∷ 171 ∷ [];
  span_id = 255 ∷ [];
  time_unix_nano = 5;
  attributes = attributes;
}

abbrev pub span : Span ℕ
span = record {
  trace_id = 1 ∷ 171 ∷ [];
  span_id = 255 ∷ [];
  parent_span_id = [];
  kind = SpanKind.client;
  start_time_unix_nano = 5000000;
  end_time_unix_nano = 9000000;
  attributes = attributes;
  status = none;
}

unfoldable pub program : Unit {0}
unfolding is_space trim_space trim_left trim_right split contains to_lower trim_suffix has_prefix
    drop get put delete classify_operation valid_operation_id operation_id_pattern first_non_empty
    value_at attr first_alias aliases_of operation_ids text_member hex_id timestamp_from_unix_nano
    attribute_map is_tool_call status_from log_completed payload_availability classify source_from
    span_kind_name duration_ms ◌+ℤ◌ ◌-ℤ◌ int64_of_uint64 milliseconds sub_time with_tool
    log_execution from_log_record span_execution from_span
program = tt

abbrev pub log_result : Execution
log_result = log_execution whole log (attribute_map whole attributes)

abbrev span_result : Execution
span_result = span_execution whole span (attribute_map whole attributes)

span_is_normalized : from_span whole (some span) ≡ some span_result
unfolding program
span_is_normalized = refl

normalized :
    (log_result.trace_id ≡ "01ab")
    × (log_result.span_id ≡ "ff")
    × (log_result.status ≡ success)
    × (log_result.operation_id ≡ id_one)
    × (span_result.duration_ms ≡ pos 4)
    × (span_result.span_kind ≡ "client")
unfolding program
normalized = (refl, refl, refl, refl, refl, refl)

same_but_opaque : SameButOpaque whole attributes other_attributes
unfolding program
same_but_opaque = (
  same refl,
  (
    same refl,
    (
      same refl,
      (
        opaque "http.status" (string_value "200") (string_value "500") refl refl refl refl,
        (
          opaque "gen_ai.tool.call.arguments" (string_value "secret") (string_value "hidden") refl
              refl refl refl,
          (same refl, tt),
        ),
      ),
    ),
  ),
)

from_log_record-opaque_example :
    from_log_record whole (some (record log { attributes = other_attributes }))
    ≡ from_log_record whole (some log)
from_log_record-opaque_example = from_log_record-opaque whole log other_attributes same_but_opaque

from_span-opaque_example :
    from_span whole (some (record span { attributes = other_attributes }))
    ≡ from_span whole (some span)
from_span-opaque_example = from_span-opaque whole span other_attributes same_but_opaque

abbrev failing : Dict String
failing = ("mcp.error.code", "-32602") ∷ []

abbrev silent : Dict String
silent = []

status_from-success_iff_example : ((status_from silent unset true).0 ≡ success) ↔ (
    (attr silent "error.type" ≡ "")
    × (attr silent "rpc.response.status_code" ≡ "")
    × (code_is_error unset ≡ false)
    × ((true || code_is_ok unset) ≡ true))
status_from-success_iff_example = status_from-success_iff silent unset true

has_code : attr failing "rpc.response.status_code" ≢ ""
unfolding program
has_code e = cc ((eq_iff (attr failing "rpc.response.status_code") "").1 e)

status_from-failure_example :
    (((status_from failing unset true).0 ≡ error)
      ⊎ ((status_from failing unset true).0 ≡ cancelled))
    × ((status_from failing unset true).2 ≡ attr failing "rpc.response.status_code")
status_from-failure_example = status_from-failure failing unset true (inr (inl has_code))

from_span-times_example :
    (span_result.started_at ≡ pos (unix_epoch + 5000000))
    × (span_result.finished_at ≡ pos (unix_epoch + 9000000))
    × (span_result.duration_ms ≡ pos ((9000000 - 5000000) / 1000000))
from_span-times_example =
    from_span-times whole span span_result (omega arith) (omega arith) (omega arith)
      span_is_normalized
