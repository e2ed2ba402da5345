-- ===== src/Tests/Replaying.antt =====
-- Fixtures that are found, read and replayed.
use evidra_agentgateway_brid.Prelude.{
  ℕ, zero, suc, ◌<◌, String, ◌≡◌, ◌≢◌, refl, ◌↔◌, ◌⊎◌, inl, inr, Option, none, some, List, [], ◌∷◌,
  ◌==◌, text_cases, eq_false, length, if◌then◌else◌, arith,
}
use evidra_agentgateway_brid.Text.{
  ◌⧺◌, codes, is_space, trim_left, trim_right, trim_space, has_prefix,
}
use evidra_agentgateway_brid.Telemetry.{LogRecord}
use evidra_agentgateway_brid.Otlp.{ExportRequest, Consumer}
use evidra_agentgateway_brid.Replay.{
  Host, FixtureRequest, parent, is_top, candidate, climb, climb_from, resolve_fixture_path,
  decode_fixture, load_fixture_record, add_record, load_fixtures, payload_of, build_fixture_payload,
  bridge_url, exit_of, send_payload, replay,
}
use evidra_agentgateway_brid.Replay.Paths.{dir_part}
use evidra_agentgateway_brid.Replay.Resolution.{CleanLaws, Resolves, resolve_fixture_path_lem}
use evidra_agentgateway_brid.Replay.Delivery.{Loads, deliver, replay-delivers}
use evidra_agentgateway_brid.Tests.Telemetry.{log}

abbrev clean : String → String
clean s = if s == "/w/" then "/w" else if s == "" then "." else s

-- A module at /w, seen from the directory below it.
abbrev host : Host ℕ
host = record {
  clean = clean;
  is_abs = has_prefix "/";
  join = λ d p. d ⧺ ("/" ⧺ p);
  exists = λ p. p == "/w/go.mod";
  getwd = inr "/w/a";
  read_file = λ p. if p == "/w/f.json" then inr (1 ∷ []) else inl "no such file";
  decode = λ bytes. inr log;
}

clean-laws : CleanLaws clean
clean-laws = record { clean-nil = refl; clean_shortest = shortest }
  where
    shortest : (s : String) → s ≢ "" → (clean s ≡ s) ⊎ (length (codes (clean s)) < length (codes s))
    shortest s n = elim (text_cases s "/w/") [
      | inl (t, e) ↦ rw e (inr (omega arith))
      | inr (t, m) ↦ rw (t, eq_false s "" n) (inl refl)
    ]

replaying : Unit {0}
unfolding has_prefix trim_space trim_left trim_right is_space dir_part parent is_top candidate climb
    climb_from resolve_fixture_path decode_fixture load_fixture_record add_record load_fixtures
    payload_of build_fixture_payload bridge_url exit_of send_payload replay
replaying = tt

found :
    (resolve_fixture_path host "f.json" ≡ some (inr "/w/f.json"))
    × (resolve_fixture_path host "/g.json" ≡ some (inr "/g.json"))
    × (resolve_fixture_path (record host { exists = λ p. p == "" }) "f.json" ≡ some (inr "f.json"))
    × (load_fixtures host ("f.json" ∷ "g.json" ∷ [])
        ≡ some (inl "read fixture /w/g.json: no such file"))
unfolding replaying
found = (refl, refl, refl, refl)

resolve_fixture_path_lem_example : Resolves host "f.json" (some (inr "/w/f.json"))
unfolding replaying
resolve_fixture_path_lem_example = resolve_fixture_path_lem host clean-laws "f.json"

-- The wire format is the number of the records, which are all the same.
abbrev marshal : FixtureRequest ℕ → String ⊎ List ℕ
marshal r = inr (length r.log_records ∷ [])

abbrev copies : ℕ → List (LogRecord ℕ)
copies zero = []
copies (suc n) = log ∷ copies n

abbrev unmarshal : List ℕ → Option (ExportRequest (LogRecord ℕ))
unmarshal [] = none
unmarshal (n ∷ rest) = some ((copies n ∷ []) ∷ [])

abbrev shelf : Consumer (LogRecord ℕ) ℕ
shelf s records = (none, length records)

abbrev getenv : String → String
getenv key = "http://bridge"

abbrev paths : List String
paths = "f.json" ∷ "f.json" ∷ []

read_back :
    (records : List (LogRecord ℕ))
    → load_fixtures host paths ≡ some (inr records)
    → unmarshal (2 ∷ []) ≡ some ((records ∷ []) ∷ [])
unfolding replaying
read_back records l = let e : log ∷ log ∷ [] ≡ records = cc l in rw (← e) refl

replay-delivers_example :
    (let o = replay getenv (λ url. none) (deliver unmarshal shelf (λ n. "")) (inr (2 ∷ [])) 0 in
      (records : List (LogRecord ℕ)) × Loads host paths records
      × (◌≡◌ {A = ℕ} o.0.code 0 ↔ (shelf 0 records).0 ≡ none)
      × (o.1 ≡ (shelf 0 records).1))
unfolding replaying
replay-delivers_example =
    replay-delivers unmarshal shelf (λ n. "") host marshal getenv (λ url. none) paths (2 ∷ []) 0
      (λ records l m. read_back records l) refl refl
