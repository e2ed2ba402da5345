-- ===== src/Bridge/Merge.antt =====
-- `merge` of processor.go and what it calls: two records of one execution become one.
pub mod Attribution
pub mod Outcome
pub mod Signals
use evidra_agentgateway_brid.Prelude.{
  ℕ, String, Bool, true, false, ◌&&◌, ◌||◌, not, List, [], ◌∷◌, ◌++◌, map, ◌==◌, leb, if◌then◌else◌,
}
use evidra_agentgateway_brid.Prelude.Int.{is_zero, sub_time, milliseconds}
use evidra_agentgateway_brid.Text.{◌⧺◌, trim_space, join}
use evidra_agentgateway_brid.Text.Sort.{sort_strings}
use evidra_agentgateway_brid.Observation.{
  Correlation, ambiguous, Status, success, error, cancelled, unknown, status_text, Availability,
  present, absent, not_emitted, omitted_size, refused_raw, Source, Execution, classify_operation,
}

-- `firstNonEmpty` of processor.go
unfoldable pub first_non_empty : List String → String
first_non_empty [] = ""
first_non_empty (v ∷ vs) = if not (trim_space v == "") then v else first_non_empty vs

-- `seen[v]` of a set of texts
unfoldable pub member : String → List String → Bool
member v [] = false
member v (w ∷ ws) = v == w || member v ws

-- The loop of `union`, with the set of what it has taken.
unfoldable pub union_loop : List String → List String → List String
unfolding member
union_loop seen [] = []
union_loop seen (v ∷ vs) =
    let skip = union_loop seen vs in
    let keep = v ∷ union_loop (v ∷ seen) vs in if v == "" || member v seen then skip else keep

unfoldable pub union : List String → List String → List String
unfolding union_loop
union a b = sort_strings (union_loop [] (a ++ b))

unfoldable pub transport_of : List String → String
transport_of [] = ""
transport_of (s ∷ []) = "otlp_" ⧺ s
transport_of seen_from = join (map (λ s. "otlp_" ⧺ s) seen_from) "+"

-- The function `rank` inside `strongerAvailability`.
unfoldable pub rank : Availability → ℕ
rank refused_raw = 4
rank omitted_size = 3
rank present = 2
rank absent = 1
rank not_emitted = 0

unfoldable pub stronger_availability : Availability → Availability → Availability
unfolding rank
stronger_availability a b = if leb (rank b) (rank a) then a else b

-- `if out.X == "" { out.X = add.X }`
unfoldable pub or_else : String → String → String
or_else a b = if a == "" then b else a

unfoldable pub merge_source : Source → Source → Source
unfolding or_else
merge_source a b = record a {
  observer_id = or_else a.observer_id b.observer_id;
  observer_version = or_else a.observer_version b.observer_version;
  service_name = or_else a.service_name b.service_name;
  protocol_version = or_else a.protocol_version b.protocol_version;
  network_transport = or_else a.network_transport b.network_transport;
  session_id = or_else a.session_id b.session_id;
}

abbrev is_ambiguous : Correlation → Bool
is_ambiguous ambiguous = true
is_ambiguous _ = false

unfoldable pub merge_correlation : Execution → Execution → Correlation × String × String
unfolding first_non_empty
merge_correlation base add =
    if is_ambiguous base.correlation || is_ambiguous add.correlation
    then (
      ambiguous,
      "",
      if is_ambiguous base.correlation
            && is_ambiguous add.correlation
            && not (base.correlation_detail == add.correlation_detail)
          then base.correlation_detail ⧺ ("; " ⧺ add.correlation_detail)
          else first_non_empty (base.correlation_detail ∷ add.correlation_detail ∷ []),
    )
    else classify_operation (base.operation_id ∷ add.operation_id ∷ [])

-- Equality of the `Status` constants.
unfoldable pub status_eq : Status → Status → Bool
status_eq success success = true
status_eq error error = true
status_eq cancelled cancelled = true
status_eq unknown unknown = true
status_eq _ _ = false

-- The status that `mergeStatus` returns.
unfoldable pub merged_status : Status → Status → Status
unfolding status_eq
merged_status a b =
    if status_eq a b
    then a
    else if status_eq a unknown
    then b
    else if status_eq b unknown
    then a
    else if status_eq a error || status_eq b error
    then error
    else if status_eq a cancelled || status_eq b cancelled
    then cancelled
    else a

-- The objection that `mergeStatus` appends, where both signals assert something and they differ.
unfoldable pub status_objection : Execution → Execution → List String
unfolding status_eq
status_objection base add =
    if status_eq base.status add.status
      || status_eq base.status unknown
      || status_eq add.status unknown
    then []
    else ("status: "
        ⧺ (join base.seen_from "+"
            ⧺ (" signal said "
                ⧺ (status_text base.status
                    ⧺ (", "
                        ⧺ (join add.seen_from "+" ⧺ (" signal said " ⧺ status_text add.status)))))))
      ∷ []

unfoldable pub merge_status :
    Execution → Execution → List String → Status × String × String × List String
unfolding merged_status status_objection first_non_empty
merge_status base add dis = (
  merged_status base.status add.status,
  first_non_empty (base.error_type ∷ add.error_type ∷ []),
  first_non_empty (base.error_code ∷ add.error_code ∷ []),
  dis ++ status_objection base add,
)

-- What Go's `fmt` does for the verb `%q`, which this development does not define.
module _ (quote : String → String) where
  unfoldable pub merge_field : String → String → String → List String → String × List String
  merge_field name a b dis = if a == b || b == "" then (a, dis) else if a == "" then (b, dis) else (
    a,
    dis ++ (name ⧺ (": signals disagreed (" ⧺ (quote a ⧺ (" vs " ⧺ (quote b ⧺ ")"))))) ∷ [],
  )

  unfoldable pub merge : Execution → Execution → Execution
  unfolding or_else
  merge base add =
      let seen_from = union base.seen_from add.seen_from in
      let (tool, dis₁) = merge_field "tool" base.tool add.tool base.disagreements in
      let (target, dis₂) = merge_field "target" base.target add.target dis₁ in
      let started_at = if is_zero base.started_at then add.started_at else base.started_at in
      let finished_at = if is_zero base.finished_at then add.finished_at else base.finished_at in
      let duration = if is_zero base.duration_ms then add.duration_ms else base.duration_ms in
      let (status, error_type, error_code, dis₃) = merge_status base add dis₂ in
      let (correlation, operation_id, detail) = merge_correlation base add in
      let source = merge_source base.source add.source in
      record base {
        seen_from = seen_from;
        trace_id = or_else base.trace_id add.trace_id;
        span_id = or_else base.span_id add.span_id;
        parent_span_id = or_else base.parent_span_id add.parent_span_id;
        span_kind = or_else base.span_kind add.span_kind;
        tool = tool;
        target = target;
        started_at = started_at;
        finished_at = finished_at;
        duration_ms =
            if is_zero duration && not (is_zero started_at) && not (is_zero finished_at)
            then milliseconds (sub_time finished_at started_at)
            else duration;
        status = status;
        error_type = error_type;
        error_code = error_code;
        correlation = correlation;
        operation_id = operation_id;
        correlation_detail = detail;
        arguments_fingerprint_status =
            stronger_availability base.arguments_fingerprint_status
              add.arguments_fingerprint_status;
        result_fingerprint_status =
            stronger_availability base.result_fingerprint_status add.result_fingerprint_status;
        read_only_declared =
            if add.read_only_annotation_known
            then add.read_only_declared
            else base.read_only_declared;
        read_only_annotation_known =
            add.read_only_annotation_known || base.read_only_annotation_known;
        source = record source { transport = transport_of seen_from };
        disagreements = dis₃;
      }
