-- ===== src/Normalize/Attributes.antt =====
-- aliases.go and the attribute helpers of agentgateway.go: what a signal declares, under which names.
use evidra_agentgateway_brid.Prelude.{
  ℕ, zero, suc, ◌*◌, ◌/◌, ◌%◌, String, Bool, true, false, ◌||◌, Option, none, some, List, [], ◌∷◌,
  ◌++◌, ◌==◌, ltb, nat_eq, if◌then◌else◌,
}
use evidra_agentgateway_brid.Prelude.Int.{ℤ, pos, negsuc, int64_of_uint64, ◌+ℤ◌}
use evidra_agentgateway_brid.Text.{◌⧺◌, trim_space, split}
use evidra_agentgateway_brid.Dict.{Dict, get, put}
use evidra_agentgateway_brid.Observation.{Time}
use evidra_agentgateway_brid.Telemetry.{
  Floats, AnyValue, string_value, bool_value, int_value, double_value, other, KeyValue, Attributes,
}

-- `firstNonEmpty` of agentgateway.go
unfoldable pub first_non_empty : List String → String
first_non_empty [] = ""
first_non_empty (v ∷ vs) = if trim_space v == "" then first_non_empty vs else v

-- `attrs[key]`: the empty text where the key is missing.
unfoldable pub value_at : String → Dict String → String
value_at key attrs = elim (get key attrs) [ none ↦ "" | some v ↦ v ]

abbrev pub semconv_of : Dict (List String)
semconv_of =
    ("gen_ai.tool.name", "mcp.tool.name" ∷ "mcp.resource.name" ∷ [])
    ∷ ("mcp.method.name", "mcp.method" ∷ [])
    ∷ ("mcp.session.id", "mcp.session_id" ∷ [])
    ∷ ("rpc.response.status_code", "mcp.error.code" ∷ [])
    ∷ ("gen_ai.usage.input_tokens", "gen_ai.usage.prompt_tokens" ∷ [])
    ∷ ("gen_ai.usage.output_tokens", "gen_ai.usage.completion_tokens" ∷ [])
    ∷ ("gen_ai.request.model", "gen_ai.model" ∷ [])
    ∷ ("mcp.protocol.version", "mcp.protocol_version" ∷ [])
    ∷ ("gen_ai.operation.name", "gen_ai.operation" ∷ [])
    ∷ ("gen_ai.provider.name", "gen_ai.system" ∷ [])
    ∷ []

-- The loop over the aliases.
unfoldable pub first_alias : Dict String → List String → String
first_alias attrs [] = ""
first_alias attrs (alias ∷ rest) =
    if value_at alias attrs == "" then first_alias attrs rest else value_at alias attrs

unfoldable pub aliases_of : Option (List String) → List String
aliases_of none = []
aliases_of (some l) = l

unfoldable pub attr : Dict String → String → String
unfolding aliases_of
attr attrs canonical =
    if value_at canonical attrs == ""
    then first_alias attrs (aliases_of (get canonical semconv_of))
    else value_at canonical attrs

abbrev pub operation_id_keys : List String
operation_id_keys = "evidra.operation.id" ∷ "evidra_op" ∷ "evidra_operation_id" ∷ []

unfoldable pub text_member : String → List String → Bool
text_member v [] = false
text_member v (w ∷ ws) = v == w || text_member v ws

-- The inner loop of `operationID`; the set `seen` holds what `found` does.
unfoldable pub collect : List String → List String → List String
unfolding text_member
collect found [] = found
collect found (v ∷ vs) =
    collect
      (if trim_space v == "" || text_member (trim_space v) found
        then found
        else found ++ trim_space v ∷ [])
      vs

-- The outer loop, over the names that may carry an id.
unfoldable pub collect_keys : Dict String → List String → List String → List String
unfolding collect
collect_keys attrs found [] = found
collect_keys attrs found (key ∷ rest) =
    collect_keys attrs (collect found (split (value_at key attrs) b',')) rest

unfoldable pub operation_ids : Dict String → List String
unfolding collect_keys
operation_ids attrs = collect_keys attrs [] operation_id_keys

-- A decimal digit, and a hexadecimal one.
unfoldable pub digit : ℕ → String
digit n =
    if nat_eq n 0
    then "0"
    else if nat_eq n 1
    then "1"
    else if nat_eq n 2
    then "2"
    else if nat_eq n 3
    then "3"
    else if nat_eq n 4
    then "4"
    else if nat_eq n 5
    then "5"
    else if nat_eq n 6
    then "6"
    else if nat_eq n 7
    then "7"
    else if nat_eq n 8
    then "8"
    else if nat_eq n 9
    then "9"
    else if nat_eq n 10
    then "a"
    else if nat_eq n 11
    then "b"
    else if nat_eq n 12
    then "c"
    else if nat_eq n 13
    then "d"
    else if nat_eq n 14
    then "e"
    else "f"

-- The decimal digits of a number, on fuel that bounds their count.
unfoldable pub decimal : ℕ → ℕ → String
unfolding digit
decimal zero n = ""
decimal (suc fuel) n =
    let front = decimal fuel (n / 10) in if ltb n 10 then digit n else front ⧺ digit (n % 10)

-- `strconv.FormatInt(v, 10)`: an `int64` has at most 19 digits.
unfoldable pub format_int : ℤ → String
unfolding decimal
format_int (pos n) = decimal 20 n
format_int (negsuc n) = "-" ⧺ decimal 20 (suc n)

unfoldable pub format_bool : Bool → String
format_bool true = "true"
format_bool false = "false"

-- `hex.EncodeToString`
unfoldable pub hex_id : List ℕ → String
unfolding digit
hex_id [] = ""
hex_id (b ∷ bs) = digit (b / 16 % 16) ⧺ (digit (b % 16) ⧺ hex_id bs)

-- The nanoseconds from the zero `time.Time` to the Unix epoch.
abbrev pub unix_epoch : ℕ
unix_epoch = 62135596800 * 1000000000

unfoldable pub timestamp_from_unix_nano : ℕ → Time
timestamp_from_unix_nano nanos =
    if nat_eq nanos 0 then pos 0 else pos unix_epoch +ℤ int64_of_uint64 nanos

module _ (floats : Floats) where
  open floats use {Double, format_float}

  unfoldable pub any_value_string : AnyValue Double → String
  unfolding format_bool format_int
  any_value_string (string_value s) = s
  any_value_string (bool_value b) = format_bool b
  any_value_string (int_value n) = format_int n
  any_value_string (double_value d) = format_float d
  any_value_string other = ""

  -- One round of the loop of `attributeMap`.
  unfoldable pub put_attribute : Option (KeyValue Double) → Dict String → Dict String
  unfolding any_value_string
  put_attribute none values = values
  put_attribute (some kv) values = elim kv.value [
    | none ↦ values
    | some v ↦ put kv.key (any_value_string v) values
  ]

  unfoldable pub attribute_loop : Attributes Double → Dict String → Dict String
  unfolding put_attribute
  attribute_loop [] values = values
  attribute_loop (kv ∷ rest) values = attribute_loop rest (put_attribute kv values)

  unfoldable pub attribute_map : Attributes Double → Dict String
  unfolding attribute_loop
  attribute_map attributes = attribute_loop attributes []
