-- ===== src/Replay.antt =====
-- internal/replay/replay.go and cmd/replay/main.go: recorded log records are found, read, made into one
-- OTLP request and posted to the bridge. `Host` is what `os`, `path/filepath` and the JSON of protobuf
-- answer; an error is `inl`, and where `none` stands for a result the climb has run out of fuel.
pub mod Paths
pub mod Resolution
pub mod Delivery
use evidra_agentgateway_brid.Prelude.{
  ℕ, zero, suc, ◌+◌, String, Bool, ◌||◌, ◌⊎◌, inl, inr, Option, none, some, List, length, ◌==◌, [],
  ◌∷◌, nat_eq, if◌then◌else◌,
}
use evidra_agentgateway_brid.Text.{◌⧺◌, trim_space, codes}
use evidra_agentgateway_brid.Replay.Paths.{dir_part}
use evidra_agentgateway_brid.Telemetry.{KeyValue, string_value, LogRecord}

pub record Host (D : Type 0) : Type 0 where
  -- `filepath.Clean`, `filepath.IsAbs` and `filepath.Join`
  pub clean : String → String
  pub is_abs : String → Bool
  pub join : String → String → String
  -- whether `os.Stat` gives no error
  pub exists : String → Bool
  pub getwd : String ⊎ String
  pub read_file : String → String ⊎ List ℕ
  -- `protojson.Unmarshal` into a log record
  pub decode : List ℕ → String ⊎ LogRecord D

-- `ExportLogsServiceRequest` with one resource and one scope.
pub record FixtureRequest (D : Type 0) : Type 0 where
  pub resource_attributes : List (KeyValue D)
  pub log_records : List (LogRecord D)

module _ {D : Type 0} (host : Host D) where
  open host use {clean, is_abs, join, exists, getwd, read_file, decode}

  -- `filepath.Dir`
  unfoldable pub parent : String → String
  unfolding dir_part
  parent d = clean (dir_part d)

  -- `parent == dir || strings.TrimSpace(parent) == ""`
  unfoldable pub is_top : String → Bool
  is_top d = parent d == d || trim_space (parent d) == ""

  -- The two returns behind the second `os.Stat` are one.
  unfoldable pub candidate : String → String
  candidate path = if exists path then path else path

  -- The loop from the working directory upwards.
  unfoldable pub climb : ℕ → String → String → Option String
  unfolding is_top candidate
  climb zero d path = none
  climb (suc fuel) d path =
      let rest = climb fuel (parent d) path in
      if exists (join d "go.mod")
      then some (candidate (join d path))
      else if is_top d
      then some path
      else rest

  unfoldable pub climb_from : String ⊎ String → String → Option (String ⊎ String)
  unfolding climb
  climb_from (inl e) path = some (inl ("get working directory: " ⧺ e))
  climb_from (inr wd) path = elim (climb (length (codes wd) + 2) wd path) [
    | none ↦ none
    | some r ↦ some (inr r)
  ]

  unfoldable pub resolve_fixture_path : String → Option (String ⊎ String)
  unfolding climb_from
  resolve_fixture_path path =
      if is_abs (clean path)
      then some (inr (clean path))
      else if exists (clean path)
      then some (inr (clean path))
      else climb_from getwd (clean path)

  unfoldable pub decode_fixture : String → String → String ⊎ List ℕ → String ⊎ LogRecord D
  decode_fixture path resolved (inl e) = inl ("read fixture " ⧺ (resolved ⧺ (": " ⧺ e)))
  decode_fixture path resolved (inr bytes) = elim (decode bytes) [
    | inl e ↦ inl ("decode fixture " ⧺ (path ⧺ (": " ⧺ e)))
    | inr r ↦ inr r
  ]

  unfoldable pub load_fixture_record : String → Option (String ⊎ LogRecord D)
  unfolding resolve_fixture_path decode_fixture
  load_fixture_record path = elim (resolve_fixture_path path) [
    | none ↦ none
    | some (inl e) ↦ some (inl e)
    | some (inr resolved) ↦ some (decode_fixture path resolved (read_file resolved))
  ]

  -- One round of the loop of `BuildFixturePayload`, which ends at the first error.
  unfoldable pub add_record :
      Option (String ⊎ LogRecord D)
      → Option (String ⊎ List (LogRecord D))
      → Option (String ⊎ List (LogRecord D))
  add_record none others = none
  add_record (some (inl e)) others = some (inl e)
  add_record (some (inr r)) none = none
  add_record (some (inr r)) (some (inl e)) = some (inl e)
  add_record (some (inr r)) (some (inr rest)) = some (inr (r ∷ rest))

  unfoldable pub load_fixtures : List String → Option (String ⊎ List (LogRecord D))
  unfolding load_fixture_record add_record
  load_fixtures [] = some (inr [])
  load_fixtures (path ∷ rest) = add_record (load_fixture_record path) (load_fixtures rest)

  -- `request` of `BuildFixturePayload`
  abbrev pub fixture_request : List (LogRecord D) → FixtureRequest D
  fixture_request records = record {
    resource_attributes =
        record { key = "service.name"; value = some (string_value "agentgateway") } ∷ [];
    log_records = records;
  }

  -- `marshal` is `proto.Marshal`.
  unfoldable pub payload_of :
      (FixtureRequest D → String ⊎ List ℕ)
      → Option (String ⊎ List (LogRecord D))
      → Option (String ⊎ List ℕ)
  payload_of marshal none = none
  payload_of marshal (some (inl e)) = some (inl e)
  payload_of marshal (some (inr records)) = elim (marshal (fixture_request records)) [
    | inl e ↦ some (inl ("marshal otlp payload: " ⧺ e))
    | inr payload ↦ some (inr payload)
  ]

  unfoldable pub build_fixture_payload :
      (FixtureRequest D → String ⊎ List ℕ) → List String → Option (String ⊎ List ℕ)
  unfolding load_fixtures payload_of
  build_fixture_payload marshal paths = payload_of marshal (load_fixtures paths)

-- The exit code of `main`, and what it writes to the standard error.
pub record Exit : Type 0 where
  pub code : ℕ
  pub stderr : Option String

abbrev pub failed_with : String → Exit
failed_with message = record { code = 1; stderr = some (message ⧺ "\n") }

-- The request that is posted.
pub record Posted : Type 0 where
  pub url : String
  pub content_type : String
  pub body : List ℕ

-- The status code, and the status line.
pub record Answer : Type 0 where
  pub status_code : ℕ
  pub status : String

abbrev pub fixture_paths : List String
fixture_paths =
    "testdata/agentgateway/log_record_minimal.json"
    ∷ "testdata/agentgateway/log_record_outcome.json" ∷ []

unfoldable pub bridge_url : (String → String) → String
bridge_url getenv =
    if getenv "EVIDRA_BRIDGE_URL" == "" then "http://localhost:4318" else getenv "EVIDRA_BRIDGE_URL"

unfoldable pub exit_of : String ⊎ Answer → Exit
exit_of (inl e) = failed_with ("send request: " ⧺ e)
exit_of (inr a) =
    if nat_eq a.status_code 202
    then record { code = 0; stderr = none }
    else failed_with ("unexpected status: " ⧺ a.status)

module _ {N : Type 0} (getenv : String → String) (new_request : String → Option String)
    (send : Posted → N → (String ⊎ Answer) × N) where
  -- `main` behind the request that `http.NewRequest` makes, or its error.
  unfoldable pub send_payload : Option String → List ℕ → N → Exit × N
  unfolding exit_of
  send_payload (some e) payload n = (failed_with ("build request: " ⧺ e), n)
  send_payload none payload n =
      let o =
        send
          (record {
            url = bridge_url getenv ⧺ "/v1/logs";
            content_type = "application/x-protobuf";
            body = payload;
          })
          n in
      (exit_of o.0, o.1)

  -- `main`, with what `BuildFixturePayload` gives.
  unfoldable pub replay : String ⊎ List ℕ → N → Exit × N
  unfolding send_payload bridge_url
  replay (inl e) n = (failed_with ("build fixture payload: " ⧺ e), n)
  replay (inr payload) n = send_payload (new_request (bridge_url getenv ⧺ "/v1/logs")) payload n
