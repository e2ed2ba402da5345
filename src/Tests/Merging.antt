-- ===== src/Tests/Merging.antt =====
-- Classification and merging.
use evidra_agentgateway_brid.Prelude.{
  ◌+◌, String, ◌≡◌, ◌≢◌, refl, ◌↔◌, ◌⊎◌, true, List, [], ◌∷◌, ◌++◌, arith, length, Elem, Distinct,
}
use Prim.Native.Nat.{max}
use evidra_agentgateway_brid.Text.{
  ◌⧺◌, is_space, trim_space, trim_left, trim_right, join, has_prefix, drop,
}
use evidra_agentgateway_brid.Text.Sort.{IsSorted}
use evidra_agentgateway_brid.Observation.{
  correlated, unattributed, ambiguous, refused_raw, join_key, valid_operation_id,
  operation_id_pattern, classify_operation,
}
use evidra_agentgateway_brid.Observation.Attribution.{attribution, readings, combine, IsHonest}
use evidra_agentgateway_brid.Observation.Classify.{classify_operation-readings}
use evidra_agentgateway_brid.Observation.OperationId.{size, IsCrockford, operation_id_pattern_iff}
use evidra_agentgateway_brid.Observation.JoinKey.{join_key_injective}
use evidra_agentgateway_brid.Bridge.Merge.{merge, union}
use evidra_agentgateway_brid.Bridge.Merge.Attribution.{
  attribution_of, IsHonestRecord, merge-attribution, merge-attribution_order,
}
use evidra_agentgateway_brid.Bridge.Merge.Outcome.{
  severity, clash, status_clash, merge-severity, merge-refused_raw, merge-objections,
  merge_forgets_objections,
}
use evidra_agentgateway_brid.Bridge.Merge.Signals.{union_lem}
use evidra_agentgateway_brid.Tests.Values.{quote, id_one, id_two, client_span, access_log}

text : Unit {0}
unfolding is_space trim_space join has_prefix drop
text = tt

classified :
    (classify_operation (" " ∷ id_one ∷ (id_one ⧺ " ") ∷ []) ≡ (correlated, id_one, ""))
    × ((classify_operation (id_one ∷ id_two ∷ [])).0 ≡ ambiguous)
    × ((classify_operation ("EV-1" ∷ [])).0 ≡ ambiguous)
    × ((classify_operation ("" ∷ [])).0 ≡ unattributed)
unfolding text classify_operation valid_operation_id operation_id_pattern trim_left trim_right
classified = (refl, refl, refl, refl)

client_span-IsHonest : IsHonestRecord client_span
client_span-IsHonest = refl

access_log-IsHonest : IsHonestRecord access_log
unfolding text valid_operation_id operation_id_pattern trim_left trim_right
access_log-IsHonest = (refl, refl, refl)

classify_operation-readings_example :
    let c = classify_operation (id_one ∷ id_two ∷ []) in
    (attribution c.0 c.1 ≡ readings (id_one ∷ id_two ∷ [])) × IsHonest c.0 c.1
classify_operation-readings_example = classify_operation-readings (id_one ∷ id_two ∷ [])

operation_id_pattern_iff_example :
    (operation_id_pattern id_one ≡ true)
    ↔ ((body : String) × (id_one ≡ "EV-" ⧺ body) × (size body ≡ 26) × IsCrockford body)
operation_id_pattern_iff_example = operation_id_pattern_iff id_one

keys_differ : join_key "t1" "s1" ≢ ""
unfolding text join_key trim_left trim_right
keys_differ e = cc

keys_same : join_key "t1" "s1" ≡ join_key "t1 " "s1"
unfolding text join_key trim_left trim_right
keys_same = refl

join_key_injective_example :
    (trim_space "t1" ≡ trim_space "t1 ") × (trim_space "s1" ≡ trim_space "s1")
join_key_injective_example =
    join_key_injective "t1" "s1" "t1 " "s1" (omega arith) (omega arith) keys_differ keys_same

merge-attribution_example :
    (attribution_of (merge quote client_span access_log)
      ≡ combine (attribution_of client_span) (attribution_of access_log))
    × IsHonestRecord (merge quote client_span access_log)
merge-attribution_example =
    merge-attribution quote client_span access_log client_span-IsHonest access_log-IsHonest

merge-attribution_order_example :
    (attribution_of (merge quote (merge quote client_span access_log) client_span)
      ≡ attribution_of (merge quote client_span (merge quote access_log client_span)))
    × (attribution_of (merge quote client_span access_log)
        ≡ attribution_of (merge quote access_log client_span))
    × (attribution_of (merge quote client_span client_span) ≡ attribution_of client_span)
merge-attribution_order_example =
    merge-attribution_order quote client_span access_log client_span client_span-IsHonest
      access_log-IsHonest client_span-IsHonest

merge-severity_example :
    severity (merge quote client_span access_log).status
    ≡ max (severity client_span.status) (severity access_log.status)
merge-severity_example = merge-severity quote client_span access_log

merge-refused_raw_example :
    ((merge quote client_span access_log).arguments_fingerprint_status ≡ refused_raw ↔ (
      (client_span.arguments_fingerprint_status ≡ refused_raw)
      ⊎ (access_log.arguments_fingerprint_status ≡ refused_raw)))
    × ((merge quote client_span access_log).result_fingerprint_status ≡ refused_raw ↔ (
        (client_span.result_fingerprint_status ≡ refused_raw)
        ⊎ (access_log.result_fingerprint_status ≡ refused_raw)))
merge-refused_raw_example = merge-refused_raw quote client_span access_log

merge-objections_example :
    (new : List String) × ((merge quote client_span access_log).disagreements
      ≡ client_span.disagreements ++ new)
    × (length new
        ≡ clash client_span.tool access_log.tool
          + clash client_span.target access_log.target
          + status_clash client_span.status access_log.status)
merge-objections_example = merge-objections quote client_span access_log

merge_forgets_objections_example :
    merge quote client_span (record access_log { disagreements = "tool: they differ" ∷ [] })
    ≡ merge quote client_span access_log
merge_forgets_objections_example =
    merge_forgets_objections quote client_span access_log ("tool: they differ" ∷ [])

union_lem_example :
    IsSorted (union ("traces" ∷ []) ("logs" ∷ []))
    × Distinct (union ("traces" ∷ []) ("logs" ∷ []))
    × ((v : String)
        → Elem v (union ("traces" ∷ []) ("logs" ∷ []))
          ↔ ((v ≢ "") × (Elem v ("traces" ∷ []) ⊎ Elem v ("logs" ∷ []))))
union_lem_example = union_lem ("traces" ∷ []) ("logs" ∷ [])
