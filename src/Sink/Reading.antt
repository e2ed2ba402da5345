-- ===== src/Sink/Reading.antt =====
-- `ReadAll` of internal/sink/jsonl.go, over the bytes of the file, and what it reads of what `Write`
-- wrote. The scanner is that of Go's `bufio`, splitting at line breaks.
pub mod RoundTrip
use evidra_agentgateway_brid.Prelude.{
  ℕ, ◌+◌, ◌*◌, ◌≤◌, ◌<◌, String, ◌≡◌, ◌≢◌, refl, ◌∙◌, ap, Bool, true, false, ◌⊎◌, inl, inr, Option,
  none, some, List, [], ◌∷◌, ◌++◌, length, length-append, nat_eq, leb, All, if◌then◌else◌, arith,
}
use evidra_agentgateway_brid.Text.{◌⧺◌}
use evidra_agentgateway_brid.Observation.{Execution}
use evidra_agentgateway_brid.Sink.{Bytes, JsonlFile, Jsonl, Request}

-- `sc.Buffer(make([]byte, 0, 64*1024), 8*1024*1024)`: a line with its break has at most as many bytes.
abbrev pub max_token : ℕ
max_token = 8 * 1024 * 1024

-- `ScanLines` drops one carriage return in front of the break.
unfoldable pub drop_cr : Bytes → Bytes
drop_cr [] = []
drop_cr (c ∷ []) = if nat_eq c 13 then [] else c ∷ []
drop_cr (c ∷ d ∷ rest) = c ∷ drop_cr (d ∷ rest)

-- The tokens of the scanner, where `line` is what it has of the current one, and whether it gave up at
-- a line that is too long.
unfoldable pub scan : Bytes → Bytes → List Bytes × Bool
unfolding drop_cr
scan [] [] = ([], false)
scan [] (c ∷ line) = (drop_cr (c ∷ line) ∷ [], false)
scan (c ∷ rest) line =
    let ended = scan rest [] in
    let longer = scan rest (line ++ c ∷ []) in
    if nat_eq c 10
    then (drop_cr line ∷ ended.0, ended.1)
    else if leb max_token (length line + 1)
    then ([], true)
    else longer

-- One decoded execution in front of the others.
unfoldable pub add_decoded : Execution → String ⊎ List Execution → String ⊎ List Execution
add_decoded ex (inl e) = inl e
add_decoded ex (inr l) = inr (ex ∷ l)

-- `sc.Err()`
unfoldable pub scan_error : Bool → Option String → Option String
scan_error true read_err = some "bufio.Scanner: token too long"
scan_error false read_err = read_err

-- Behind the loop.
unfoldable pub scanned : String → Option String → String ⊎ List Execution → String ⊎ List Execution
scanned path err (inl e) = inl e
scanned path none (inr l) = inr l
scanned path (some e) (inr l) = inl ("scan sink " ⧺ (path ⧺ (": " ⧺ e)))

module _ (decimal : ℕ → String) (unmarshal : Bytes → String ⊎ Execution) (path : String) where
  -- The loop; `line` is the number of the last line.
  unfoldable pub decode_lines : ℕ → List Bytes → String ⊎ List Execution
  unfolding add_decoded
  decode_lines line [] = inr []
  decode_lines line ([] ∷ rest) = decode_lines (line + 1) rest
  decode_lines line ((c ∷ token) ∷ rest) = elim (unmarshal (c ∷ token)) [
    | inl e ↦ inl (path ⧺ (" line " ⧺ (decimal (line + 1) ⧺ (": " ⧺ e))))
    | inr ex ↦ add_decoded ex (decode_lines (line + 1) rest)
  ]

  -- `opened` is what `os.Open` gives: an error, or the bytes that can be read with the error that ends
  -- them, if it is not the end of the file.
  unfoldable pub read_all : String ⊎ (Bytes × Option String) → String ⊎ List Execution
  unfolding scanned scan_error
  read_all (inl e) = inl e
  read_all (inr (bytes, read_err)) =
      let tokens = scan bytes [] in
      scanned path (scan_error tokens.1 read_err) (decode_lines 0 tokens.0)
