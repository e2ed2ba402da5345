-- ===== src/Tests/Reading.antt =====
-- Reading back what the sink wrote.
use evidra_agentgateway_brid.Prelude.{
  String, ◌≡◌, refl, ◌⊎◌, inl, inr, none, some, List, [], ◌∷◌, nat_eq, if◌then◌else◌, arith,
}
use evidra_agentgateway_brid.Observation.{Execution}
use evidra_agentgateway_brid.Sink.{
  Bytes, Request, rollback, appended, write_from, write_locked, write_raw, write_jsonl,
}
use evidra_agentgateway_brid.Sink.Series.{write_all}
use evidra_agentgateway_brid.Sink.Reading.{
  drop_cr, scan, add_decoded, decode_lines, scan_error, scanned, read_all,
}
use evidra_agentgateway_brid.Sink.Reading.RoundTrip.{IsStorable, read_all-write_all}
use evidra_agentgateway_brid.Tests.Values.{client_span, access_log}
use evidra_agentgateway_brid.Tests.Files.{decimal, disk, disk-laws, fresh}

unfoldable pub program : Unit {0}
unfolding rollback appended write_from write_locked write_raw write_jsonl drop_cr scan add_decoded
    decode_lines scan_error scanned read_all
program = tt

abbrev marshal : Execution → String ⊎ Bytes
marshal ex = inr (123 ∷ 125 ∷ [])

-- A text that begins with a brace.
abbrev unmarshal : Bytes → String ⊎ Execution
unmarshal [] = inl "unexpected end of JSON input"
unmarshal (c ∷ rest) = if nat_eq c 123 then inr client_span else inl "invalid character"

-- Carriage returns and empty lines are dropped, and a line that is no JSON is an error with its number.
lines_of_text :
    (read_all decimal unmarshal "out" (inr (123 ∷ 13 ∷ 10 ∷ 10 ∷ 123 ∷ [], none))
      ≡ inr (client_span ∷ client_span ∷ []))
    × (read_all decimal unmarshal "out" (inr (123 ∷ 10 ∷ 50 ∷ 10 ∷ [], none))
        ≡ inl "out line 0: invalid character")
    × (read_all decimal unmarshal "out" (inr (123 ∷ [], some "input/output error"))
        ≡ inl "scan sink out: input/output error")
unfolding program
lines_of_text = (refl, refl, refl)

abbrev requests : List Request
requests =
    record { ex = client_span; ctx_err = none; ctx_err_locked = none }
    ∷ record { ex = access_log; ctx_err = some "canceled"; ctx_err_locked = none }
    ∷ record { ex = client_span; ctx_err = none; ctx_err_locked = none }
    ∷ []

abbrev client_span-IsStorable : IsStorable marshal unmarshal client_span
client_span-IsStorable = record {
  raw = 123 ∷ 125 ∷ [];
  front = 123 ∷ [];
  stored = refl;
  one_line = (refl, (refl, tt));
  object = refl;
  short = omega arith;
  reads = refl;
}

read_all-write_all_example :
    read_all decimal unmarshal "out"
      (inr ((write_all disk decimal marshal requests fresh).1.f, none))
    ≡ inr (write_all disk decimal marshal requests fresh).0
unfolding program
read_all-write_all_example =
    read_all-write_all marshal unmarshal decimal "out" disk (λ f. f) disk-laws requests fresh refl
      refl refl (client_span-IsStorable, (client_span-IsStorable, tt))
