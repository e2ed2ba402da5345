-- ===== src/ExtMcp/Artifact/Complete.antt =====
-- What the capture server writes: every operation that a hook declared, once, with what was seen of it.
use evidra_agentgateway_brid.Prelude.{
  String, ◌≡◌, true, false, ◌||◌, Option, none, some, List, [], ◌∷◌, Elem, Distinct, map,
}
use evidra_agentgateway_brid.ExtMcp.{Capture, Store}
use evidra_agentgateway_brid.ExtMcp.Lifecycle.{Hook, some_of, is_request_of, is_response_of}
use evidra_agentgateway_brid.ExtMcp.Artifact.{Artifact, ServeError}

abbrev operations : List Capture → List String
operations = map (λ c. c.operation_context)

-- Each entry stands under the operation of its capture.
abbrev IsNamed : Store → Type 0
IsNamed [] = Unit
IsNamed ((k, c) ∷ s) = (c.operation_context ≡ k) × IsNamed s

-- What the captures say of the hooks that were called.
pub record IsArtifactOf (hooks : List Hook) (l : List Capture) : Type 0 where
  pub sound :
      (c : Capture)
      → Elem c l
      → (c.request_seen ≡ some_of (is_request_of c.operation_context) hooks)
        × (c.response_seen ≡ some_of (is_response_of c.operation_context) hooks)
        × (c.raw_persisted ≡ false)
  pub complete :
      (operation : String)
      → some_of (is_request_of operation) hooks || some_of (is_response_of operation) hooks ≡ true
      → (c : Capture) × Elem c l × (c.operation_context ≡ operation)
  pub once : Distinct (map (λ c. c.operation_context) l)

-- The server was stopped in good order.
abbrev pub IsStopped : Option ServeError → Type 0
IsStopped none = Unit
IsStopped (some e) = e.is_server_stopped ≡ true
