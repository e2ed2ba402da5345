-- ===== src/ExtMcp/Artifact.antt =====
-- cmd/extmcp-spike/main.go: a server of the capture hook that writes what it has captured when it is
-- stopped. The listener, the gRPC server and the encoder of JSON are what they answer.
pub mod Filed
pub mod Complete
use mathlib.Core.Path.{subst}
use mathlib.Core.Option.{none-ne-some, some-injective}
use evidra_agentgateway_brid.Prelude.{
  ℕ, String, ◌≡◌, refl, sym, ap, ◌∙◌, ◌⊎◌, ◌↔◌, inl, inr, Bool, true, false, ◌||◌, ◌&&◌, Option,
  none, some, List, [], ◌∷◌, ◌==◌, text_cases, Bool-cases, Option-cases, Elem, Distinct,
  if◌then◌else◌, arith, eq_iff,
}
use evidra_agentgateway_brid.Text.{◌⧺◌}
use evidra_agentgateway_brid.Text.Order.{str_leb}
use evidra_agentgateway_brid.Dict.{
  get, get-put, keys, Values, put-Values, get-Values, get-Elem, Elem-get, Elem-keys, put-Distinct,
  Dict,
}
use evidra_agentgateway_brid.ExtMcp.{
  Capture, Store, new_store, new_server, McpMessage, new_capture, capture_of, mark,
  operation_context, check, check_request, check_response, insert_capture, snapshot,
}
use evidra_agentgateway_brid.ExtMcp.Lifecycle.{
  Hook, request, response, call, call_all, some_of, is_request_of, is_response_of, request_noted,
  response_noted, call_all-notes,
}

-- The map that is encoded.
pub record Artifact : Type 0 where
  pub captures : List Capture
  pub hook_gaps : List String

abbrev pub hook_gaps : List String
hook_gaps =
    "AgentGateway cannot invoke CheckResponse for a response that never arrives; missing-response is observed as start-only."
    ∷ []

-- An error of `Serve`, and whether it is `grpc.ErrServerStopped`.
pub record ServeError : Type 0 where
  pub is_server_stopped : Bool
  pub text : String

abbrev pub error_text : Option ServeError → Option String
error_text none = none
error_text (some e) = some e.text

abbrev pub artifact_of : Store → Artifact
artifact_of s = record { captures = snapshot s; hook_gaps = hook_gaps }

module _ {W : Type 0} (encode : Artifact → W → Option String × W) where
  -- `serveExtMCP` behind `<-stopped`.
  unfoldable pub finish_serving : Option ServeError → Store → W → Option String × W
  finish_serving none s w = encode (artifact_of s) w
  finish_serving (some e) s w =
      if e.is_server_stopped then encode (artifact_of s) w else (some e.text, w)

  -- `serveExtMCP`: the hooks that were called until `Serve` returned, whether the context is done
  -- then, and the error of `Serve`.
  unfoldable pub serve_ext_mcp : List Hook → Bool → Option ServeError → W → Option String × W
  unfolding finish_serving
  serve_ext_mcp hooks cancelled serve_err w =
      if cancelled
      then finish_serving serve_err (call_all hooks (new_server (some new_store))) w
      else (error_text serve_err, w)

  unfoldable pub listen_addr : (String → String) → String
  listen_addr getenv =
      if getenv "EVIDRA_EXTMCP_LISTEN_ADDR" == ""
      then ":19090"
      else getenv "EVIDRA_EXTMCP_LISTEN_ADDR"

  -- The exit code and what is written to the standard error.
  unfoldable pub exit_after : Option String × W → (ℕ × Option String) × W
  exit_after (none, w) = ((0, none), w)
  exit_after (some e, w) = ((1, some ("serve: " ⧺ (e ⧺ "\n"))), w)

  -- `main`, where `listen` is `net.Listen`.
  unfoldable pub run_ext_mcp :
      (String → String)
      → (String → Option String)
      → List Hook
      → Bool
      → Option ServeError
      → W
      → (ℕ × Option String) × W
  unfolding serve_ext_mcp listen_addr exit_after
  run_ext_mcp getenv listen hooks cancelled serve_err w = elim (listen (listen_addr getenv)) [
    | some e ↦ ((1, some ("listen: " ⧺ (e ⧺ "\n"))), w)
    | none ↦ exit_after (serve_ext_mcp hooks cancelled serve_err w)
  ]
