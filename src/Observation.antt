-- ===== src/Observation.antt =====
-- internal/observation/execution.go: the normalized record of one tool execution, the key that joins
-- its signals, and the classification of the operation ids that they carry.
pub mod Attribution
pub mod Classify
pub mod OperationId
pub mod JoinKey
use Prim.Native.Char.{code}
use Prim.Native.String.{[], ◌∷◌}
use evidra_agentgateway_brid.Prelude.{
  ℕ, zero, suc, String, Bool, true, false, ◌&&◌, ◌||◌, not, List, ◌==◌, leb, nat_eq, if◌then◌else◌,
}
use evidra_agentgateway_brid.Prelude.Int.{ℤ}
use evidra_agentgateway_brid.Text.{◌⧺◌, trim_space, has_prefix, drop, join}

pub data Correlation : Type 0 where
  correlated unattributed ambiguous : Correlation

pub data Status : Type 0 where
  success error cancelled unknown : Status

-- The text that the `Status` constant is, as messages print it.
abbrev pub status_text : Status → String
status_text success = "success"
status_text error = "error"
status_text cancelled = "cancelled"
status_text unknown = "unknown"

pub data Availability : Type 0 where
  present absent not_emitted omitted_size refused_raw : Availability

-- An instant, as the nanoseconds since the zero `time.Time` (year 1), so that `IsZero` tests for 0.
abbrev pub Time : Type 0
Time = ℤ

pub record Source : Type 0 where
  pub observer_type : String
  pub observer_id : String
  pub observer_version : String
  pub transport : String
  pub service_name : String
  pub protocol_version : String
  pub network_transport : String
  pub session_id : String

pub record Execution : Type 0 where
  pub trace_id : String
  pub span_id : String
  pub parent_span_id : String
  pub span_kind : String
  pub operation_id : String
  pub correlation : Correlation
  pub correlation_detail : String
  pub target : String
  pub tool : String
  pub started_at : Time
  pub finished_at : Time
  pub duration_ms : ℤ
  pub status : Status
  pub error_type : String
  pub error_code : String
  pub arguments_fingerprint : String
  pub arguments_fingerprint_status : Availability
  pub result_fingerprint : String
  pub result_fingerprint_status : Availability
  pub read_only_declared : Bool
  pub read_only_annotation_known : Bool
  pub annotations_verified : Bool
  pub source : Source
  pub seen_from : List String
  pub disagreements : List String

unfoldable pub join_key : String → String → String
join_key trace_id span_id =
    let trace = trim_space trace_id in
    let span = trim_space span_id in if trace == "" || span == "" then "" else trace ⧺ ("/" ⧺ span)

-- `[0-9A-HJKMNP-TV-Z]`
unfoldable pub is_crockford : ℕ → Bool
is_crockford c =
    (leb b'0' c && leb c b'9')
    || (leb b'A' c && leb c b'H')
    || nat_eq c b'J'
    || nat_eq c b'K'
    || nat_eq c b'M'
    || nat_eq c b'N'
    || (leb b'P' c && leb c b'T')
    || (leb b'V' c && leb c b'Z')

-- `[0-9A-HJKMNP-TV-Z]{n}$`
unfoldable pub matches_body : ℕ → String → Bool
unfolding is_crockford
matches_body zero [] = true
matches_body zero (c ∷ s) = false
matches_body (suc n) [] = false
matches_body (suc n) (c ∷ s) = is_crockford (code c) && matches_body n s

-- `^EV-[0-9A-HJKMNP-TV-Z]{26}$`
unfoldable pub operation_id_pattern : String → Bool
unfolding matches_body
operation_id_pattern s = has_prefix "EV-" s && matches_body 26 (drop "EV-" s)

unfoldable pub valid_operation_id : String → Bool
valid_operation_id id = operation_id_pattern (trim_space id)

-- The first loop of `ClassifyOperation`: the ids that are not blank, trimmed.
unfoldable pub present_ids : List String → List String
present_ids List.[] = List.[]
present_ids (List.◌∷◌ id ids) =
    let rest = present_ids ids in
    if trim_space id == "" then rest else List.◌∷◌ (trim_space id) rest

-- The second loop: no id differs from the first.
unfoldable pub agree : String → List String → Bool
agree first List.[] = true
agree first (List.◌∷◌ id ids) = id == first && agree first ids

classify_present : List String → Correlation × String × String
classify_present List.[] = (unattributed, "", "no explicit operation id on any contributing signal")
classify_present (List.◌∷◌ first rest) =
    if not (agree first rest)
    then (ambiguous, "", "conflicting operation ids: " ⧺ join (List.◌∷◌ first rest) " vs ")
    else if not (valid_operation_id first)
    then (ambiguous, "", "operation id is not well formed: " ⧺ first)
    else (correlated, first, "")

unfoldable pub classify_operation : List String → Correlation × String × String
unfolding classify_present present_ids agree
classify_operation found = classify_present (present_ids found)
