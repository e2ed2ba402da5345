-- ===== src/Normalize/Records/Privacy.antt =====
-- What the records do not depend on: what a payload attribute or an HTTP status holds, beyond whether
-- it holds anything.
use evidra_agentgateway_brid.Prelude.{String, ◌≡◌, refl, Bool, false, some, List, [], ◌∷◌, All}
use evidra_agentgateway_brid.Text.{split}
use evidra_agentgateway_brid.Dict.{Dict, get}
use evidra_agentgateway_brid.Telemetry.{Floats, Attributes, LogRecord, Span, StatusCode}
use evidra_agentgateway_brid.Normalize.Attributes.{
  value_at, first_alias, aliases_of, attr, collect, semconv_of, collect_keys, operation_ids,
  operation_id_keys, text_member,
}
use evidra_agentgateway_brid.Normalize.Verdict.{
  is_tool_call, status_from, log_completed, payload_availability, classify, source_from,
}
use evidra_agentgateway_brid.Normalize.Records.{
  log_execution, from_log_record, span_execution, from_span,
}
use evidra_agentgateway_brid.Normalize.Records.Views.{
  opaque_keys, SameView, SameButOpaque, attribute_map-SameView,
}

abbrev IsPublic : String → Type 0
IsPublic k = text_member k opaque_keys ≡ false

-- Each function that reads the attributes gives the same for the two maps.
module _ (d e : Dict String) (s : SameView d e) where
  first_alias-same : (l : List String) → All IsPublic l → first_alias d l ≡ first_alias e l
  unfolding first_alias
  first_alias-same [] h = refl
  first_alias-same (k ∷ l) (h, hs) = rw (s.value k h, first_alias-same l hs)

  attr-same :
      (c : String) → IsPublic c → All IsPublic (aliases_of (get c semconv_of)) → attr d c ≡ attr e c
  unfolding attr
  attr-same c h k = rw (s.value c h, first_alias-same _ k)

  collect_keys-same :
      (found keys : List String)
      → All IsPublic keys
      → collect_keys d found keys ≡ collect_keys e found keys
  unfolding collect_keys
  collect_keys-same found [] h = refl
  collect_keys-same found (k ∷ keys) (h, hs) =
      rw (s.value k h) (collect_keys-same (collect found (split (value_at k e) b',')) keys hs)

  classify-same : classify d ≡ classify e
  unfolding classify operation_ids text_member
  classify-same = rw (collect_keys-same [] operation_id_keys (refl, (refl, (refl, tt))))

  is_tool_call-same : is_tool_call d ≡ is_tool_call e
  unfolding is_tool_call get aliases_of text_member
  is_tool_call-same =
      rw (attr-same "mcp.method.name" refl (refl, tt), s.value "mcp.resource.type" refl)

  status_from-same : (c : StatusCode) (b : Bool) → status_from d c b ≡ status_from e c b
  unfolding status_from get aliases_of text_member
  status_from-same c b =
      rw (attr-same "error.type" refl tt, attr-same "rpc.response.status_code" refl (refl, tt))

  log_completed-same : log_completed d ≡ log_completed e
  unfolding log_completed
  log_completed-same = rw (
    s.presence "duration",
    s.presence "duration_ms",
    s.presence "http.status",
    s.presence "http.status_code",
  )

  payload_availability-same : payload_availability d ≡ payload_availability e
  unfolding payload_availability
  payload_availability-same =
      rw (s.presence "gen_ai.tool.call.arguments", s.presence "gen_ai.tool.call.result")

  source_from-same : (t : String) → source_from d t ≡ source_from e t
  unfolding source_from get aliases_of text_member
  source_from-same t = rw (
    s.value "service.name" refl,
    s.value "network.transport" refl,
    attr-same "mcp.protocol.version" refl (refl, tt),
    attr-same "mcp.session.id" refl (refl, tt),
  )

  tool-same : attr d "gen_ai.tool.name" ≡ attr e "gen_ai.tool.name"
  unfolding get aliases_of text_member
  tool-same = attr-same "gen_ai.tool.name" refl (refl, (refl, tt))

module _ (floats : Floats) (d e : Dict String) (s : SameView d e) where
  open floats use {Double}

  log_execution-same : (r : LogRecord Double) → log_execution floats r d ≡ log_execution floats r e
  unfolding log_execution text_member
  log_execution-same r = rw (
    payload_availability-same d e s,
    log_completed-same d e s,
    status_from-same d e s,
    classify-same d e s,
    source_from-same d e s,
    tool-same d e s,
    s.value "trace.id" refl,
    s.value "span.id" refl,
    s.value "mcp.target" refl,
    s.value "duration" refl,
    s.value "duration_ms" refl,
  )

  span_execution-same : (r : Span Double) → span_execution floats r d ≡ span_execution floats r e
  unfolding span_execution text_member
  span_execution-same r = rw (
    payload_availability-same d e s,
    status_from-same d e s,
    classify-same d e s,
    source_from-same d e s,
    tool-same d e s,
    s.value "trace.id" refl,
    s.value "span.id" refl,
    s.value "mcp.target" refl,
  )

module _ (floats : Floats) where
  open floats use {Double}

  log_execution-attributes :
      (r : LogRecord Double) (a : Attributes Double) (d : Dict String)
      → log_execution floats (record r { attributes = a }) d ≡ log_execution floats r d
  unfolding log_execution
  log_execution-attributes r a d = refl

  span_execution-attributes :
      (r : Span Double) (a : Attributes Double) (d : Dict String)
      → span_execution floats (record r { attributes = a }) d ≡ span_execution floats r d
  unfolding span_execution
  span_execution-attributes r a d = refl

  -- Two log records that differ only in what their payload attributes and HTTP statuses hold, with the
  -- same of them empty, are normalized to one record, or both are refused. So a record holds nothing of
  -- the arguments or the result of a call, and its status does not come from an HTTP status.
  pub from_log_record-opaque :
      (r : LogRecord Double) (attributes : Attributes Double)
      → SameButOpaque floats r.attributes attributes
      → from_log_record floats (some (record r { attributes = attributes }))
        ≡ from_log_record floats (some r)
  unfolding from_log_record
  from_log_record-opaque r attributes h =
      let s = attribute_map-SameView floats r.attributes attributes h in
      rw (
        is_tool_call-same _ _ s,
        log_execution-attributes r attributes _,
        log_execution-same floats _ _ s r,
      )

  -- Two spans that differ only in what their payload attributes and HTTP statuses hold, with the same of
  -- them empty, are normalized to one record, or both are refused.
  pub from_span-opaque :
      (r : Span Double) (attributes : Attributes Double)
      → SameButOpaque floats r.attributes attributes
      → from_span floats (some (record r { attributes = attributes })) ≡ from_span floats (some r)
  unfolding from_span
  from_span-opaque r attributes h =
      let s = attribute_map-SameView floats r.attributes attributes h in
      rw (
        is_tool_call-same _ _ s,
        span_execution-attributes r attributes _,
        span_execution-same floats _ _ s r,
      )
