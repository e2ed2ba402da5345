-- ===== src/Sink/Reading/RoundTrip.antt =====
-- What `ReadAll` gives of the lines that `Write` appends.
use mathlib.Core.List.{append-nil, append_assoc}
use evidra_agentgateway_brid.Prelude.{
  ℕ, ◌+◌, ◌<◌, String, ◌≡◌, refl, ap, ◌∙◌, false, ◌⊎◌, inr, none, List, [], ◌∷◌, ◌++◌, length,
  length-append, nat_eq, leb, All, arith,
}
use evidra_agentgateway_brid.Observation.{Execution}
use evidra_agentgateway_brid.Sink.{Bytes, JsonlFile, Jsonl, Request}
use evidra_agentgateway_brid.Sink.Lines.{FileLaws}
use evidra_agentgateway_brid.Sink.Series.{line_of, line_of-inr, lines, write_all, write_all-lines}
use evidra_agentgateway_brid.Sink.Reading.{
  max_token, drop_cr, scan, add_decoded, decode_lines, read_all,
}

drop_cr_last :
    (front : Bytes) (e : ℕ) → nat_eq e 13 ≡ false → drop_cr (front ++ e ∷ []) ≡ front ++ e ∷ []
unfolding drop_cr
drop_cr_last [] e h = rw h refl
drop_cr_last (c ∷ []) e h = rw h refl
drop_cr_last (c ∷ d ∷ front) e h = ap (λ l. c ∷ l) (drop_cr_last (d ∷ front) e h)

object_kept : (raw front : Bytes) → raw ≡ front ++ 125 ∷ [] → drop_cr raw ≡ raw
object_kept raw front e = rw e (drop_cr_last front 125 refl)

-- A line that is not too long is one token.
scan_line :
    (raw line rest : Bytes)
    → All (λ c. nat_eq c 10 ≡ false) raw
    → length line + length raw < max_token
    → scan (raw ++ 10 ∷ rest) line ≡ (drop_cr (line ++ raw) ∷ (scan rest []).0, (scan rest []).1)
unfolding scan
scan_line [] line rest h k = rw append-nil refl
scan_line (c ∷ raw) line rest h k =
    let short : leb max_token (length line + 1) ≡ false = ground arith in
    let fits : length (line ++ c ∷ []) + length raw < max_token =
      omega (arith, length-append line (c ∷ [])) in
    rw (h.0, short) (scan_line raw (line ++ c ∷ []) rest h.1 fits ∙ (rw append_assoc refl))

module _ (marshal : Execution → String ⊎ Bytes) (unmarshal : Bytes → String ⊎ Execution) where
  -- What `encoding/json` does with an execution: the text of an object, compact and so on one line,
  -- which reads back as the execution; and the text is short enough for the scanner.
  pub record IsStorable (ex : Execution) : Type 0 where
    pub raw : Bytes
    pub front : Bytes
    pub stored : marshal ex ≡ inr raw
    pub one_line : All (λ c. nat_eq c 10 ≡ false) raw
    pub object : raw ≡ front ++ 125 ∷ []
    pub short : length raw < max_token
    pub reads : unmarshal raw ≡ inr ex

  scan_record :
      (ex : Execution) (rest : Bytes) (s : IsStorable ex)
      → scan (line_of marshal ex ++ rest) [] ≡ (s.raw ∷ (scan rest []).0, (scan rest []).1)
  scan_record ex rest s =
      rw (line_of-inr marshal ex s.raw s.stored, append_assoc)
        (scan_line s.raw [] rest s.one_line (omega arith)
          ∙ (rw (object_kept s.raw s.front s.object) refl))

  module _ (decimal : ℕ → String) (path : String) where
    decode_token :
        (line : ℕ) (ex : Execution) (token front : Bytes) (rest : List Bytes)
        → token ≡ front ++ 125 ∷ []
        → unmarshal token ≡ inr ex
        → decode_lines decimal unmarshal path line (token ∷ rest)
          ≡ add_decoded ex (decode_lines decimal unmarshal path (line + 1) rest)
    unfolding decode_lines
    decode_token line ex [] [] rest h e = absurd (cc h)
    decode_token line ex [] (c ∷ front) rest h e = absurd (cc h)
    decode_token line ex (c ∷ token) front rest h e = rw (e, decode_lines) refl

    lines_read :
        (l : List Execution) (line : ℕ)
        → All IsStorable l
        → (decode_lines decimal unmarshal path line (scan (lines marshal l) []).0 ≡ inr l)
          × ((scan (lines marshal l) []).1 ≡ false)
    lines_read [] line h = (unfold decode_lines scan in refl, unfold scan in refl)
    lines_read (ex ∷ l) line (s, h) =
        let (d, f) = lines_read l (line + 1) h in
        let e : scan (line_of marshal ex ++ lines marshal l) []
            ≡ (s.raw ∷ (scan (lines marshal l) []).0, (scan (lines marshal l) []).1) =
          scan_record ex (lines marshal l) s in
        rw e (
          decode_token line ex s.raw s.front (scan (lines marshal l) []).0 s.object s.reads
              ∙ (rw d (unfold add_decoded in refl)),
          f,
        )

    -- Whatever was appended to an empty file, `ReadAll` gives the executions whose write was reported
    -- to succeed, in order, if each is stored as an object on one line that is not too long and reads
    -- back, and the sink is not poisoned.
    pub read_all-write_all :
        {F : Type 0} (file : JsonlFile F) (content : F → Bytes)
        → FileLaws file content
        → (rs : List Request) (s : Jsonl F) → s.poisoned ≡ none
        → (write_all file decimal marshal rs s).1.poisoned ≡ none
        → content s.f ≡ []
        → All IsStorable (write_all file decimal marshal rs s).0
        → read_all decimal unmarshal path
            (inr (content (write_all file decimal marshal rs s).1.f, none))
          ≡ inr (write_all file decimal marshal rs s).0
    unfolding read_all
    read_all-write_all file content laws rs s p q z h =
        let l = (write_all file decimal marshal rs s).0 in
        let c = write_all-lines file decimal marshal content laws rs s p q in
        let (d, f) = lines_read l 0 h in rw (c, z, f, d) refl
