-- ===== src/Tests/Files.antt =====
-- The sink on a file that has room for a number of bytes.
use evidra_agentgateway_brid.Prelude.{
  ℕ, zero, suc, sym, ◌-◌, String, ◌≡◌, refl, ◌⊎◌, inr, none, some, List, [], ◌∷◌, ◌++◌, length, ltb,
  if◌then◌else◌,
}
use evidra_agentgateway_brid.Observation.{Execution}
use evidra_agentgateway_brid.Sink.{
  Bytes, JsonlFile, Jsonl, Request, rollback, appended, write_from, write_locked, write_raw,
  write_jsonl,
}
use evidra_agentgateway_brid.Sink.Lines.{FileLaws, take}
use evidra_agentgateway_brid.Sink.Series.{lines, write_all, write_all-lines}
use evidra_agentgateway_brid.Tests.Values.{client_span, access_log}

-- A disk of ten bytes, which takes what fits.
abbrev pub disk : JsonlFile Bytes
disk = record {
  stat = λ f. inr (length f);
  write = λ f line. (
    (
      length (take (10 - length f) line),
      if ltb (10 - length f) (length line) then some "disk full" else none,
    ),
    f ++ take (10 - length f) line,
  );
  truncate = λ f n. (none, take n f);
  close = λ f. (none, f);
}

abbrev pub decimal : ℕ → String
decimal n = "0"

-- The bytes of an execution are the number of its disagreements, four times.
abbrev marshal : Execution → String ⊎ Bytes
marshal ex = inr (length ex.disagreements ∷ 1 ∷ 2 ∷ 3 ∷ [])

take_took : (n : ℕ) (xs : Bytes) → take (length (take n xs)) xs ≡ take n xs
take_took zero xs = refl
take_took (suc n) [] = refl
take_took (suc n) (x ∷ xs) = rw (take_took n xs)

pub disk-laws : FileLaws disk (λ f. f)
disk-laws = record {
  stat_size = λ f n e. sym (cc e);
  write_appends = λ f line. rw (take_took (10 - length f) line) refl;
  truncate_cuts = λ f n h e. refl;
}

abbrev requests : List Request
requests =
    record { ex = client_span; ctx_err = none; ctx_err_locked = none }
    ∷ record { ex = access_log; ctx_err = some "canceled"; ctx_err_locked = none }
    ∷ record { ex = access_log; ctx_err = none; ctx_err_locked = none }
    ∷ record { ex = access_log; ctx_err = none; ctx_err_locked = none }
    ∷ []

abbrev pub fresh : Jsonl Bytes
fresh = record { path = "out"; f = []; poisoned = none }

-- The second write is cancelled, and the fourth has no room and leaves nothing behind.
two_lines :
    (write_all disk decimal marshal requests fresh).1
    ≡ record fresh { f = 0 ∷ 1 ∷ 2 ∷ 3 ∷ 10 ∷ 0 ∷ 1 ∷ 2 ∷ 3 ∷ 10 ∷ [] }
unfolding rollback appended write_from write_locked write_raw write_jsonl
two_lines = refl

write_all-lines_example :
    (write_all disk decimal marshal requests fresh).1.f
    ≡ [] ++ lines marshal (write_all disk decimal marshal requests fresh).0
unfolding rollback appended write_from write_locked write_raw write_jsonl
write_all-lines_example =
    write_all-lines disk decimal marshal (λ f. f) disk-laws requests fresh refl refl
