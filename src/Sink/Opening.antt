-- ===== src/Sink/Opening.antt =====
-- `NewJSONL` of internal/sink/jsonl.go, over a file system with a state of its own.
use evidra_agentgateway_brid.Prelude.{
  String, ◌||◌, ◌⊎◌, inl, inr, Option, none, some, ◌==◌, if◌then◌else◌,
}
use evidra_agentgateway_brid.Text.{◌⧺◌}
use evidra_agentgateway_brid.Sink.{Jsonl}

-- `filepath.Dir`, `os.MkdirAll` and `os.OpenFile` for appending.
pub record FileSystem (W F : Type 0) : Type 0 where
  pub dir : String → String
  pub mkdir_all : String → W → Option String × W
  pub open_append : String → W → (String ⊎ F) × W

module _ {W F : Type 0} (fs : FileSystem W F) where
  -- `if dir := filepath.Dir(path); dir != "" && dir != "." { … }`
  unfoldable pub make_directory : String → W → Option String × W
  make_directory dir w = if dir == "" || dir == "." then (none, w) else fs.mkdir_all dir w

  unfoldable pub opened : String → (String ⊎ F) × W → (String ⊎ Jsonl F) × W
  opened path (inl e, w) = (inl ("open sink: " ⧺ e), w)
  opened path (inr f, w) = (inr (record { path = path; f = f; poisoned = none }), w)

  -- `NewJSONL` behind the directory.
  unfoldable pub open_in : String → Option String × W → (String ⊎ Jsonl F) × W
  unfolding opened
  open_in path (some e, w) = (inl ("create sink directory: " ⧺ e), w)
  open_in path (none, w) = opened path (fs.open_append path w)

  unfoldable pub new_jsonl : String → W → (String ⊎ Jsonl F) × W
  unfolding make_directory open_in
  new_jsonl path w =
      if path == ""
      then (inl "sink path is required", w)
      else open_in path (make_directory (fs.dir path) w)
