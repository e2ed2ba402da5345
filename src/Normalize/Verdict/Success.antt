-- ===== src/Normalize/Verdict/Success.antt =====
-- The status that a signal reports, and how completion is read.
use evidra_agentgateway_brid.Prelude.{
  String, ◌≡◌, ◌≢◌, refl, ◌↔◌, ◌⊎◌, Bool, true, false, ◌||◌, arith, eq_iff,
}
use evidra_agentgateway_brid.Text.{codes, to_lower, contains}
use evidra_agentgateway_brid.Dict.{Dict}
use evidra_agentgateway_brid.Observation.{success, error, cancelled}
use evidra_agentgateway_brid.Telemetry.{StatusCode}
use evidra_agentgateway_brid.Normalize.Attributes.{attr}
use evidra_agentgateway_brid.Normalize.Verdict.{status_of, status_from, code_is_error, code_is_ok}

-- No error type and no code cancels nothing.
no_cancel : contains (to_lower "") (codes "cancel") ≡ false
unfolding contains to_lower
no_cancel = refl

status_of-success_iff :
    (t code : String) (sc : StatusCode) (done : Bool)
    → ((status_of t code sc done).0 ≡ success)
      ↔ ((t ≡ "") × (code ≡ "") × (code_is_error sc ≡ false) × ((done || code_is_ok sc) ≡ true))
unfolding status_of
status_of-success_iff t code sc done = (
  λ h. (
    ground (arith, eq_iff t "", eq_iff t "_OTHER", eq_iff code ""),
    ground (arith, eq_iff t "", eq_iff t "_OTHER", eq_iff code ""),
    ground (arith, eq_iff t "", eq_iff t "_OTHER", eq_iff code ""),
    ground (arith, eq_iff t "", eq_iff t "_OTHER", eq_iff code ""),
  ),
  λ (p, q, r, d). rw (p, q, no_cancel) (ground arith),
)

-- A signal reports success exactly when it declares no error type and no response code, its span does
-- not say error, and it completed or its span says that all was well.
pub status_from-success_iff :
    (attrs : Dict String) (sc : StatusCode) (done : Bool)
    → ((status_from attrs sc done).0 ≡ success) ↔ (
        (attr attrs "error.type" ≡ "")
        × (attr attrs "rpc.response.status_code" ≡ "")
        × (code_is_error sc ≡ false)
        × ((done || code_is_ok sc) ≡ true))
unfolding status_from
status_from-success_iff attrs sc done = status_of-success_iff _ _ sc done

status_of-failure :
    (t code : String) (sc : StatusCode) (done : Bool)
    → (t ≢ "") ⊎ ((code ≢ "") ⊎ (code_is_error sc ≡ true))
    → (((status_of t code sc done).0 ≡ error) ⊎ ((status_of t code sc done).0 ≡ cancelled))
      × ((status_of t code sc done).2 ≡ code)
unfolding status_of
status_of-failure t code sc done h = (
  ground (arith, eq_iff t "", eq_iff t "_OTHER", eq_iff code ""),
  ground (arith, eq_iff t "", eq_iff t "_OTHER", eq_iff code ""),
)

-- A failure that a signal declares, by an error type, a response code or the status of its span, is
-- recorded as an error or a cancellation, with the code that was declared, completed or not.
pub status_from-failure :
    (attrs : Dict String) (sc : StatusCode) (done : Bool)
    → (attr attrs "error.type" ≢ "")
      ⊎ ((attr attrs "rpc.response.status_code" ≢ "") ⊎ (code_is_error sc ≡ true))
    → (((status_from attrs sc done).0 ≡ error) ⊎ ((status_from attrs sc done).0 ≡ cancelled))
      × ((status_from attrs sc done).2 ≡ attr attrs "rpc.response.status_code")
unfolding status_from
status_from-failure attrs sc done h = status_of-failure _ _ sc done h
