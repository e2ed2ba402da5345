-- ===== src/Normalize/Records/Honest.antt =====
-- What every normalized record satisfies, whatever the telemetry.
use mathlib.Core.Option.{some-injective}
use mathlib.Core.Path.{subst}
use evidra_agentgateway_brid.Prelude.{
  String, ◌≡◌, ◌≢◌, inl, inr, some, List, eq_iff, ◌==◌, Bool-cases,
}
use evidra_agentgateway_brid.Observation.{Execution}
use evidra_agentgateway_brid.Observation.Attribution.{readings, attribution, IsHonest}
use evidra_agentgateway_brid.Observation.Classify.{classify_operation-readings}
use evidra_agentgateway_brid.Telemetry.{Floats, LogRecord, Span}
use evidra_agentgateway_brid.Normalize.Attributes.{attribute_map, operation_ids}
use evidra_agentgateway_brid.Normalize.Verdict.{is_tool_call, classify}
use evidra_agentgateway_brid.Normalize.Records.{
  with_tool, log_execution, from_log_record, span_execution, from_span,
}

-- The record is about a named tool, states the combined reading of the ids that its attributes carry,
-- and is honest about it.
abbrev pub IsNormal : List String → Execution → Type 0
IsNormal ids ex =
    (ex.tool ≢ "")
    × (attribution ex.correlation ex.operation_id ≡ readings ids)
    × IsHonest ex.correlation ex.operation_id

pub with_tool-eq-some : (ex out : Execution) → with_tool ex ≡ some out → (ex.tool ≢ "") × (ex ≡ out)
unfolding with_tool
with_tool-eq-some ex out e = elim (Bool-cases (ex.tool == "")) [
  | inl t ↦ absurd (cc (rw (t, with_tool) at e))
  | inr f ↦ (λ p. cc (f, (eq_iff ex.tool "").1 p), some-injective _ _ (rw (f, with_tool) at e))
]

module _ (floats : Floats) where
  open floats use {Double}

  pub from_log_record-IsNormal :
      (r : LogRecord Double) (out : Execution)
      → from_log_record floats (some r) ≡ some out
      → IsNormal (operation_ids (attribute_map floats r.attributes)) out
  unfolding from_log_record log_execution classify
  from_log_record-IsNormal r out e =
      let attrs = attribute_map floats r.attributes in
      elim (Bool-cases (is_tool_call attrs)) [
        | inl c ↦
            let (t, p) =
              with_tool-eq-some (log_execution floats r attrs) out (rw (c, from_log_record) at e) in
            let (s, h) = classify_operation-readings (operation_ids attrs) in
            subst (IsNormal (operation_ids attrs)) p (t, s, h)
        | inr c ↦ absurd (cc (rw (c, from_log_record) at e))
      ]

  pub from_span-IsNormal :
      (r : Span Double) (out : Execution)
      → from_span floats (some r) ≡ some out
      → IsNormal (operation_ids (attribute_map floats r.attributes)) out
  unfolding from_span span_execution classify
  from_span-IsNormal r out e =
      let attrs = attribute_map floats r.attributes in
      elim (Bool-cases (is_tool_call attrs)) [
        | inl c ↦
            let (t, p) =
              with_tool-eq-some (span_execution floats r attrs) out (rw (c, from_span) at e) in
            let (s, h) = classify_operation-readings (operation_ids attrs) in
            subst (IsNormal (operation_ids attrs)) p (t, s, h)
        | inr c ↦ absurd (cc (rw (c, from_span) at e))
      ]
