-- ===== src/Replay/Delivery.antt =====
-- What reaches the bridge when fixtures are replayed.
use mathlib.Core.Path.{subst}
use mathlib.Core.List.{append-nil}
use mathlib.Core.Option.{none-ne-some}
use evidra_agentgateway_brid.Prelude.{
  ℕ, String, ◌≡◌, refl, sym, ◌∙◌, ◌↔◌, ◌⊎◌, inl, inr, Option, none, some, List, [], ◌∷◌, ⊎-cases,
  arith,
}
use evidra_agentgateway_brid.Text.{◌⧺◌}
use evidra_agentgateway_brid.Telemetry.{LogRecord}
use evidra_agentgateway_brid.Otlp.{
  ExportRequest, Consumer, flatten_scopes, flatten, serve_consumed, serve_decoded, serve_http,
  serve_logs,
}
use evidra_agentgateway_brid.Replay.{
  Host, FixtureRequest, fixture_request, load_fixture_record, add_record, load_fixtures, payload_of,
  build_fixture_payload, Posted, Answer, bridge_url, exit_of, send_payload, replay,
}

module _ {D : Type 0} (host : Host D) where
  -- One record for each path, in order.
  abbrev pub Loads : List String → List (LogRecord D) → Type 0
  Loads [] [] = Unit
  Loads (path ∷ paths) (r ∷ rest) =
      (load_fixture_record host path ≡ some (inr r)) × Loads paths rest
  Loads _ _ = ⊥

  add_record-cases :
      (one : Option (String ⊎ LogRecord D)) (others : Option (String ⊎ List (LogRecord D)))
      (records : List (LogRecord D))
      → add_record host one others ≡ some (inr records)
      → (r : LogRecord D) × (rest : List (LogRecord D)) × (one ≡ some (inr r))
        × (others ≡ some (inr rest))
        × (records ≡ r ∷ rest)
  unfolding add_record
  add_record-cases none others records e = absurd (cc e)
  add_record-cases (some (inl x)) others records e = absurd (cc e)
  add_record-cases (some (inr r)) none records e = absurd (cc e)
  add_record-cases (some (inr r)) (some (inl x)) records e = absurd (cc e)
  add_record-cases (some (inr r)) (some (inr rest)) records e = (r, rest, refl, refl, cc e)

  load_fixtures-Loads :
      (paths : List String) (records : List (LogRecord D))
      → load_fixtures host paths ≡ some (inr records)
      → Loads paths records
  unfolding load_fixtures
  load_fixtures-Loads [] [] e = tt
  load_fixtures-Loads [] (r ∷ rest) e = absurd (cc e)
  load_fixtures-Loads (path ∷ paths) records e =
      let (r, rest, one, others, same) =
        add_record-cases (load_fixture_record host path) (load_fixtures host paths) records e in
      subst (Loads (path ∷ paths)) (sym same) (one, load_fixtures-Loads paths rest others)

  module _ (marshal : FixtureRequest D → String ⊎ List ℕ) where
    payload_of-cases :
        (loaded : Option (String ⊎ List (LogRecord D))) (payload : List ℕ)
        → payload_of host marshal loaded ≡ some (inr payload)
        → (records : List (LogRecord D)) × (loaded ≡ some (inr records))
          × (marshal (fixture_request host records) ≡ inr payload)
    unfolding payload_of
    payload_of-cases none payload e = absurd (cc e)
    payload_of-cases (some (inl x)) payload e = absurd (cc e)
    payload_of-cases (some (inr records)) payload e =
        elim (⊎-cases (marshal (fixture_request host records))) [
          | inl (x, m) ↦ absurd (cc (rw (m, payload_of) at e))
          | inr (b, m) ↦ (records, refl, m ∙ (cc (rw (m, payload_of) at e)))
        ]

module _ {D S : Type 0} (unmarshal : List ℕ → Option (ExportRequest (LogRecord D)))
    (consumer : Consumer (LogRecord D) S) (status_line : ℕ → String) where
  -- A network that hands what is posted to the bridge's handler of logs.
  abbrev pub deliver : Posted → S → (String ⊎ Answer) × S
  deliver r s =
      let o =
        serve_logs unmarshal (some consumer) (record { method = "POST"; body = inr r.body }) s in
      (inr (record { status_code = o.0.status; status = status_line o.0.status }), o.1)

  consumed_exit :
      (failure : String) (o : Option String × S)
      → let a = serve_consumed failure o in
        ((exit_of (inr (record { status_code = a.0.status; status = status_line a.0.status }))).code
            ≡ 0
          ↔ o.0 ≡ none)
        × (a.1 ≡ o.1)
  unfolding serve_consumed exit_of
  consumed_exit failure (none, s) = (((λ h. refl), (λ h. refl)), refl)
  consumed_exit failure (some e, s) =
      (((λ h. absurd (omega (arith, h))), (λ h. absurd (none-ne-some e (sym h)))), refl)

  served :
      (records : List (LogRecord D)) (payload : List ℕ) (s : S)
      → unmarshal payload ≡ some ((records ∷ []) ∷ [])
      → serve_logs unmarshal (some consumer) (record { method = "POST"; body = inr payload }) s
        ≡ serve_consumed "consume logs" (consumer s records)
  unfolding serve_logs serve_http serve_decoded flatten flatten_scopes
  served records payload s u = rw (u, append-nil, append-nil) refl

  module _ (host : Host D) (marshal : FixtureRequest D → String ⊎ List ℕ) (getenv : String → String)
      (new_request : String → Option String) where
    -- Where protobuf reads the payload as the request that it was written from, and the bridge can be reached: a payload that was built
    -- hands the bridge's consumer one record for each fixture, in order, and the tool exits with 0
    -- exactly when the consumer reports no error.
    pub replay-delivers :
        (paths : List String) (payload : List ℕ) (s : S)
        → ((records : List (LogRecord D))
            → load_fixtures host paths ≡ some (inr records)
            → marshal (fixture_request host records) ≡ inr payload
            → unmarshal payload ≡ some ((records ∷ []) ∷ []))
        → new_request (bridge_url getenv ⧺ "/v1/logs") ≡ none
        → build_fixture_payload host marshal paths ≡ some (inr payload)
        → (let o = replay getenv new_request deliver (inr payload) s in
            (records : List (LogRecord D)) × Loads host paths records
            × (o.0.code ≡ 0 ↔ (consumer s records).0 ≡ none)
            × (o.1 ≡ (consumer s records).1))
    unfolding build_fixture_payload replay send_payload
    replay-delivers paths payload s wire made built =
        let (records, l, m) =
          payload_of-cases host marshal (load_fixtures host paths) payload built in
        let (x, y) = consumed_exit "consume logs" (consumer s records) in
        let e = served records payload s (wire records l m) in
        (records, load_fixtures-Loads host paths records l, rw (made, e) x, rw (made, e) y)
