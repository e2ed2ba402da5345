-- ===== src/ExtMcp/Artifact/Filed.antt =====
-- The store holds no payload and one capture for each operation, under its name.
use mathlib.Core.Option.{none-ne-some, some-injective}
use evidra_agentgateway_brid.Prelude.{
  String, ◌≡◌, refl, sym, ap, ◌∙◌, ◌⊎◌, inl, inr, Bool, true, false, some, List, [], ◌∷◌,
  text_cases, Option-cases, Distinct,
}
use evidra_agentgateway_brid.Dict.{get, get-put, keys, put-Distinct}
use evidra_agentgateway_brid.ExtMcp.{
  Capture, Store, McpMessage, new_capture, capture_of, mark, operation_context, check,
  check_request, check_response,
}
use evidra_agentgateway_brid.ExtMcp.Lifecycle.{Hook, request, response, call, call_all}

-- Every capture stands under its own operation and holds no payload, and no operation stands twice.
abbrev pub IsFiled : Store → Type 0
IsFiled s =
    ((k : String) (c : Capture)
      → get k s ≡ some c
      → (c.operation_context ≡ k) × (c.raw_persisted ≡ false))
    × Distinct (keys s)

capture_of-IsFiled :
    (s : Store) (k : String) (services : List String) (method : String)
    → IsFiled s
    → ((capture_of (get k s) k services method).operation_context ≡ k)
      × ((capture_of (get k s) k services method).raw_persisted ≡ false)
unfolding capture_of new_capture
capture_of-IsFiled s k services method h = elim (Option-cases (get k s)) [
  | inl n ↦ rw (n, capture_of) (refl, refl)
  | inr (c, e) ↦ rw (e, capture_of) (h.0 k c e)
]

mark-IsFiled :
    (k method : String) (services : List String) (start finish : Bool) (s : Store)
    → IsFiled s
    → IsFiled (mark k services method start finish s)
unfolding mark
mark-IsFiled k method services start finish s h = (
  (λ j c e. elim (text_cases k j) [
    | inl (t, p) ↦
        let q = capture_of-IsFiled s k services method h in
        let same = some-injective _ _ (rw (get-put, t) at e) in
        (
          ap (λ (z : Capture). z.operation_context) (sym same) ∙ (q.0 ∙ p),
          ap (λ (z : Capture). z.raw_persisted) (sym same) ∙ q.1,
        )
    | inr (t, n) ↦ h.0 j c (rw (get-put, t) at e)
  ]),
  put-Distinct k _ s h.1,
)

check-IsFiled :
    (d : String ⊎ String) (m : McpMessage) (start finish : Bool) (s : Store)
    → IsFiled s
    → IsFiled (check d m start finish s).1
unfolding check
check-IsFiled (inl e) m start finish s h = h
check-IsFiled (inr k) m start finish s h = mark-IsFiled k m.method m.service_names start finish s h

call-IsFiled : (h : Hook) (s : Store) → IsFiled s → IsFiled (call h s).1
unfolding call check_request check_response
call-IsFiled (request m) s f = check-IsFiled (operation_context m.metadata_context) m true false s f
call-IsFiled (response m) s f =
    check-IsFiled (operation_context m.metadata_context) m false true s f

pub call_all-IsFiled : (hs : List Hook) (s : Store) → IsFiled s → IsFiled (call_all hs s)
call_all-IsFiled [] s f = f
call_all-IsFiled (h ∷ hs) s f = call_all-IsFiled hs (call h s).1 (call-IsFiled h s f)

pub empty-IsFiled : IsFiled []
unfolding get
empty-IsFiled = ((λ k c e. absurd (none-ne-some c e)), tt)
