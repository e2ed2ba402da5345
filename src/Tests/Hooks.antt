-- ===== src/Tests/Hooks.antt =====
-- Calls of the capture hook.
use evidra_agentgateway_brid.Prelude.{
  String, ◌≡◌, refl, true, false, Option, none, some, List, [], ◌∷◌, length,
}
use evidra_agentgateway_brid.Dict.{get, put, delete}
use evidra_agentgateway_brid.ExtMcp.Artifact.{
  Artifact, ServeError, finish_serving, serve_ext_mcp, listen_addr, exit_after, run_ext_mcp,
}
use evidra_agentgateway_brid.ExtMcp.{
  McpMessage, new_capture, capture_of, mark, get_string_value, operation_context, check,
  check_request, check_response, insert_capture, snapshot,
}
use evidra_agentgateway_brid.ExtMcp.Lifecycle.{
  Hook, request, response, call, call_all, some_of, is_request_of, is_response_of, request_noted,
  response_noted, call_all-notes,
}

abbrev message : String → McpMessage
message operation = record {
  service_names = "svc" ∷ [];
  method = "tools/call";
  payload = "secret" ∷ [];
  metadata_context = some (("evidra_operation_id", some operation) ∷ []);
}

abbrev hooks : List Hook
hooks =
    request (message "b")
    ∷ response (message "a")
    ∷ response (message "b")
    ∷ request (record (message "c") { metadata_context = none })
    ∷ []

two_operations :
    (length (snapshot (call_all hooks [])) ≡ 2)
    × (request_noted (get "a" (call_all hooks [])) ≡ false)
    × (response_noted (get "b" (call_all hooks [])) ≡ true)
    × ((check_request (message "") []).0
        ≡ some "missing authoritative operation context \"evidra_operation_id\"")
unfolding get put delete new_capture capture_of mark get_string_value operation_context check
    check_request check_response insert_capture snapshot call
two_operations = (refl, refl, refl, refl)

call_all-notes_example :
    (request_noted (get "b" (call_all hooks [])) ≡ some_of (is_request_of "b") hooks)
    × (response_noted (get "b" (call_all hooks [])) ≡ some_of (is_response_of "b") hooks)
call_all-notes_example = call_all-notes hooks "b"

-- An output that keeps what is encoded.
abbrev output : Artifact → List Artifact → Option String × List Artifact
output a w = (none, a ∷ w)

abbrev stopped : Option ServeError
stopped = some (record { is_server_stopped = true; text = "grpc: the server has been stopped" })

exits :
    ((run_ext_mcp output (λ key. "") (λ addr. none) hooks true stopped []).0.0 ≡ 0)
    × ((run_ext_mcp output (λ key. ":1") (λ addr. some addr) hooks true none []).0.1
        ≡ some "listen: :1\n")
    × ((run_ext_mcp output (λ key. "") (λ addr. none) hooks false stopped []).0.0 ≡ 1)
unfolding run_ext_mcp serve_ext_mcp finish_serving listen_addr exit_after
exits = (refl, refl, refl)
