-- ===== src/ExtMcp.antt =====
-- internal/extmcp/server.go: the hook that notes which operations a request and a response were seen of.
pub mod Lifecycle
pub mod Artifact
use evidra_agentgateway_brid.Prelude.{
  String, Bool, true, false, ◌||◌, ◌⊎◌, inl, inr, Option, none, some, List, [], ◌∷◌, ◌==◌,
  if◌then◌else◌,
}
use evidra_agentgateway_brid.Text.Order.{str_leb}
use evidra_agentgateway_brid.Dict.{Dict, get, put}

abbrev pub operation_context_key : String
operation_context_key = "evidra_operation_id"

pub record Capture : Type 0 where
  pub service_names : List String
  pub method : String
  pub request_seen : Bool
  pub response_seen : Bool
  pub operation_context : String
  pub raw_persisted : Bool

-- The map of the captures. Nothing outside the store has their pointers, since `Snapshot` copies them.
abbrev pub Store : Type 0
Store = Dict Capture

abbrev pub new_store : Store
new_store = []

-- The store of a new server: the one that is given, or a new one.
abbrev pub new_server : Option Store → Store
new_server none = new_store
new_server (some store) = store

-- `McpRequest` or `McpResponse`. A field of the metadata is a text, or something else (`none`).
pub record McpMessage : Type 0 where
  pub service_names : List String
  pub method : String
  pub payload : List String
  pub metadata_context : Option (Dict (Option String))

unfoldable pub new_capture : String → List String → String → Capture
new_capture operation services method = record {
  service_names = services;
  method = method;
  request_seen = false;
  response_seen = false;
  operation_context = operation;
  raw_persisted = false;
}

-- The capture of an operation, made where there is none.
unfoldable pub capture_of : Option Capture → String → List String → String → Capture
capture_of (some c) operation services method = c
capture_of none operation services method = new_capture operation services method

unfoldable pub mark : String → List String → String → Bool → Bool → Store → Store
mark operation services method start finish s =
    let c = capture_of (get operation s) operation services method in
    put operation
      (record c {
        request_seen = c.request_seen || start;
        response_seen = c.response_seen || finish;
      })
      s

-- `GetStringValue` of a field: empty where it is missing or no text.
unfoldable pub get_string_value : Option (Option String) → String
get_string_value none = ""
get_string_value (some none) = ""
get_string_value (some (some v)) = v

-- `operationContext`: `inl` is the error.
unfoldable pub operation_context : Option (Dict (Option String)) → String ⊎ String
unfolding get_string_value
operation_context none = inl "missing authoritative operation context"
operation_context (some fields) =
    if get_string_value (get operation_context_key fields) == ""
    then inl "missing authoritative operation context \"evidra_operation_id\""
    else inr (get_string_value (get operation_context_key fields))

-- Both checks behind `operationContext`: `none` is the answer `Pass`.
unfoldable pub check : String ⊎ String → McpMessage → Bool → Bool → Store → Option String × Store
check (inl e) m start finish s = (some e, s)
check (inr operation) m start finish s =
    (none, mark operation m.service_names m.method start finish s)

unfoldable pub check_request : McpMessage → Store → Option String × Store
check_request m s = check (operation_context m.metadata_context) m true false s

unfoldable pub check_response : McpMessage → Store → Option String × Store
check_response m s = check (operation_context m.metadata_context) m false true s

unfoldable pub insert_capture : Capture → List Capture → List Capture
insert_capture c [] = c ∷ []
insert_capture c (d ∷ ds) =
    let rest = insert_capture c ds in
    if str_leb c.operation_context d.operation_context then c ∷ d ∷ ds else d ∷ rest

-- `Snapshot`: the operations differ, so that the order in which the range visits them is lost.
unfoldable pub snapshot : Store → List Capture
unfolding insert_capture
snapshot [] = []
snapshot ((operation, c) ∷ rest) = insert_capture c (snapshot rest)
