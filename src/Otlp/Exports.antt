-- ===== src/Otlp/Exports.antt =====
-- What an export reaches, and what its sender is told.
use mathlib.Core.Path.{subst}
use mathlib.Core.Option.{none-ne-some}
use evidra_agentgateway_brid.Prelude.{
  ℕ, String, ◌≡◌, refl, sym, ◌≢◌, arith, ◌↔◌, ◌⊎◌, inl, inr, Option, none, some, List, [], ◌∷◌,
  Elem, Elem-append, Elem-append_left, Elem-append_right, Option-cases, ⊎-cases, text_cases,
}
use evidra_agentgateway_brid.Otlp.{
  ExportRequest, Consumer, HttpRequest, HttpResponse, flatten_scopes, flatten, serve_consumed,
  serve_decoded, serve_http, export,
}

consumed_accepted_iff :
    {S : Type 0} (failure : String) (o : Option String × S)
    → ((serve_consumed failure o).0.status ≡ 202 ↔ o.0 ≡ none)
      × ((serve_consumed failure o).1 ≡ o.1)
unfolding serve_consumed
consumed_accepted_iff failure (some e, s) =
    (((λ h. absurd (omega (arith, h))), (λ h. absurd (none-ne-some e (sym h)))), refl)
consumed_accepted_iff failure (none, s) = (((λ h. refl), (λ h. refl)), refl)

module _ {Record : Type 0} where
  -- The record is in a scope of the resource.
  abbrev pub InScopes : Record → List (List Record) → Type 0
  InScopes r scopes = (scope : List Record) × Elem scope scopes × Elem r scope

  scopes_to : (r : Record) (l : List (List Record)) → InScopes r l → Elem r (flatten_scopes l)
  unfolding flatten_scopes
  scopes_to r [] (scope, m, k) = absurd m
  scopes_to r (x ∷ rest) (scope, inl e, k) = Elem-append_left r x _ (subst (Elem r) e k)
  scopes_to r (x ∷ rest) (scope, inr m, k) =
      Elem-append_right r x _ (scopes_to r rest (scope, m, k))

  scopes_from : (r : Record) (l : List (List Record)) → Elem r (flatten_scopes l) → InScopes r l
  unfolding flatten_scopes
  scopes_from r [] m = absurd m
  scopes_from r (x ∷ rest) m = elim (Elem-append r x _ m) [
    | inl k ↦ (x, inl refl, k)
    | inr k ↦ let (scope, n, j) = scopes_from r rest k in (scope, inr n, j)
  ]

  flatten_to :
      (r : Record) (req : ExportRequest Record)
      → ((scopes : List (List Record)) × Elem scopes req × InScopes r scopes)
      → Elem r (flatten req)
  unfolding flatten
  flatten_to r [] (scopes, m, k) = absurd m
  flatten_to r (x ∷ rest) (scopes, inl e, k) =
      Elem-append_left r (flatten_scopes x) _ (scopes_to r x (subst (InScopes r) e k))
  flatten_to r (x ∷ rest) (scopes, inr m, k) =
      Elem-append_right r (flatten_scopes x) _ (flatten_to r rest (scopes, m, k))

  flatten_from :
      (r : Record) (req : ExportRequest Record)
      → Elem r (flatten req)
      → ((scopes : List (List Record)) × Elem scopes req × InScopes r scopes)
  unfolding flatten
  flatten_from r [] m = absurd m
  flatten_from r (x ∷ rest) m = elim (Elem-append r (flatten_scopes x) _ m) [
    | inl k ↦ (x, inl refl, scopes_from r x k)
    | inr k ↦ let (scopes, n, j) = flatten_from r rest k in (scopes, inr n, j)
  ]

  -- The flattened records are those of the scopes of the resources, no more and no fewer.
  pub flatten_iff :
      (r : Record) (req : ExportRequest Record)
      → Elem r (flatten req) ↔ (
          (scopes : List (List Record)) × Elem scopes req
          × ((scope : List Record) × Elem scope scopes × Elem r scope))
  flatten_iff r req = (flatten_from r req, flatten_to r req)

  module _ {S : Type 0} where
    decoded_accepted_iff :
        (failure : String) (consumer : Option (Consumer Record S)) (req : ExportRequest Record)
        (s : S)
        → ((serve_decoded failure consumer req s).0.status ≡ 202 ↔ (export consumer req s).0 ≡ none)
          × ((serve_decoded failure consumer req s).1 ≡ (export consumer req s).1)
    unfolding serve_decoded serve_consumed export
    decoded_accepted_iff failure none req s = (((λ e. refl), (λ e. refl)), refl)
    decoded_accepted_iff failure (some consumer) req s =
        consumed_accepted_iff failure (consumer s (flatten req))

    module _ (undecoded failure : String) (unmarshal : List ℕ → Option (ExportRequest Record))
        (consumer : Option (Consumer Record S)) where
      -- What a posted body that can be read and decoded does.
      abbrev pub IsExported : HttpRequest → S → HttpResponse × S → Type 0
      IsExported r s o =
          (body : List ℕ) × (req : ExportRequest Record) × (r.method ≡ "POST")
          × (r.body ≡ inr body)
          × (unmarshal body ≡ some req)
          × (o.0.status ≡ 202 ↔ (export consumer req s).0 ≡ none)
          × (o.1 ≡ (export consumer req s).1)

      -- The body cannot be read, or not be decoded.
      abbrev pub IsUnreadable : HttpRequest → Type 0
      IsUnreadable r =
          ((e : String) × (r.body ≡ inl e))
          ⊎ ((body : List ℕ) × (r.body ≡ inr body) × (unmarshal body ≡ none))

      -- The request is refused, as one that is not posted or has no body to decode, before the
      -- consumer is called.
      abbrev pub IsTurnedAway : HttpRequest → S → HttpResponse × S → Type 0
      IsTurnedAway r s o =
          (((r.method ≢ "POST") × (o.0.status ≡ 405))
            ⊎ ((r.method ≡ "POST") × IsUnreadable r × (o.0.status ≡ 400)))
          × (o.1 ≡ s)

      -- A posted body that can be read and decoded has the effect that the gRPC service has on the
      -- same request, and is accepted exactly when that reports no error. A request that is not posted
      -- is answered with 405, a posted one whose body cannot be read or decoded with 400, and nothing
      -- is consumed.
      pub serve_http-export :
          (r : HttpRequest) (s : S)
          → let o = serve_http undecoded failure unmarshal consumer r s in
            IsExported r s o ⊎ IsTurnedAway r s o
      unfolding serve_http
      serve_http-export r s = elim (text_cases r.method "POST") [
        | inr (f, n) ↦ rw (f, serve_http) (inr (inl (n, refl), refl))
        | inl (t, p) ↦ elim (⊎-cases r.body) [
          | inl (e, b) ↦ rw (t, b, serve_http) (inr (inr (p, inl (e, refl), refl), refl))
          | inr (body, b) ↦ elim (Option-cases (unmarshal body)) [
            | inl m ↦ rw (t, b, m, serve_http) (inr (inr (p, inr (body, refl, m), refl), refl))
            | inr (req, m) ↦
                let (i, e) = decoded_accepted_iff failure consumer req s in
                rw (t, b, m, serve_http) (inl (body, req, p, refl, m, i, e))
          ]
        ]
      ]
