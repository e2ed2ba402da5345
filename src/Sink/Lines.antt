-- ===== src/Sink/Lines.antt =====
-- What one call of `Write` leaves in the file.
use evidra_agentgateway_brid.Prelude.{
  ℕ, zero, ◌≤◌, suc, String, ◌≡◌, refl, ◌∙◌, ◌⊎◌, inl, inr, Option, none, some, [], ◌∷◌, ◌++◌,
  length, length-append, nat_eq, arith, Bool-cases, Option-cases,
}
use evidra_agentgateway_brid.Observation.{Execution}
use evidra_agentgateway_brid.Sink.{
  Bytes, JsonlFile, Jsonl, Request, poison, rollback, appended, write_from, write_locked, write_raw,
  write_jsonl,
}

abbrev pub take : ℕ → Bytes → Bytes
take zero xs = []
take (suc n) [] = []
take (suc n) (x ∷ xs) = x ∷ take n xs

take_append : (xs ys : Bytes) → take (length xs) (xs ++ ys) ≡ xs
take_append [] ys = refl
take_append (x ∷ xs) ys = rw (take_append xs ys)

pub take_whole : (xs : Bytes) → take (length xs) xs ≡ xs
take_whole [] = refl
take_whole (x ∷ xs) = rw (take_whole xs)

-- What the operating system promises of a file that is open for appending and has one writer.
pub record FileLaws {F : Type 0} (file : JsonlFile F) (content : F → Bytes) : Type 0 where
  pub stat_size : (f : F) (n : ℕ) → file.stat f ≡ inr n → n ≡ length (content f)
  -- A write adds as much of the line as it says it took.
  pub write_appends :
      (f : F) (line : Bytes)
      → content (file.write f line).1 ≡ content f ++ take (file.write f line).0.0 line
  pub truncate_cuts :
      (f : F) (n : ℕ)
      → n ≤ length (content f)
      → (file.truncate f n).0 ≡ none
      → content (file.truncate f n).1 ≡ take n (content f)

with_bytes :
    (A : Bytes → Type 0) {B C : Type 0} (raw : Bytes)
    → A raw ⊎ (B ⊎ C)
    → ((b : Bytes) × (Path (String ⊎ Bytes) (inr raw) (inr b)) × A b) ⊎ (B ⊎ C)
with_bytes A raw (inl a) = inl (raw, refl, a)
with_bytes A raw (inr b) = inr b

failed : {A B C : Type 0} → B ⊎ A → C ⊎ (A ⊎ B)
failed (inl b) = inr (inr b)
failed (inr r) = inr (inl r)

module _ {F : Type 0} (content : F → Bytes) where
  -- The call failed, and the file and the sink are what they were.
  abbrev pub Refused : Jsonl F → Option String × Jsonl F → Type 0
  Refused s o =
      ((e : String) × (o.0 ≡ some e)) × (content o.1.f ≡ content s.f) × (o.1.poisoned ≡ s.poisoned)

  -- The call failed, and the sink takes no line any more.
  abbrev pub Broken : Option String × Jsonl F → Type 0
  Broken o = ((e : String) × (o.0 ≡ some e)) × ((e : String) × (o.1.poisoned ≡ some e))

  -- The call succeeded, and the line is at the end of the file.
  abbrev pub Appended : Bytes → Jsonl F → Option String × Jsonl F → Type 0
  Appended line s o = (o.0 ≡ none) × (content o.1.f ≡ content s.f ++ line) × (o.1.poisoned ≡ none)

module _ {F : Type 0} (file : JsonlFile F) (decimal : ℕ → String) (content : F → Bytes)
    (laws : FileLaws file content) where
  cut_back :
      (start : ℕ) (f : F) (kept rest : Bytes)
      → start ≡ length kept
      → content f ≡ kept ++ rest
      → (file.truncate f start).0 ≡ none
      → content (file.truncate f start).1 ≡ kept
  cut_back start f kept rest hs hc n =
      laws.truncate_cuts f start (rw (hs, hc) (omega (arith, length-append kept rest))) n
      ∙ (rw (hs, hc) (take_append kept rest))

  rollback_lem :
      (start : ℕ) (e : String) (s : Jsonl F) (kept rest : Bytes)
      → start ≡ length kept
      → content s.f ≡ kept ++ rest
      → Broken content (rollback file decimal start e s)
        ⊎ (((x : String) × ((rollback file decimal start e s).0 ≡ some x))
            × (content (rollback file decimal start e s).1.f ≡ kept)
            × ((rollback file decimal start e s).1.poisoned ≡ s.poisoned))
  unfolding rollback poison
  rollback_lem start e s kept rest hs hc = elim (Option-cases (file.truncate s.f start).0) [
    | inl n ↦ rw (n, rollback) (inr ((_, refl), cut_back start s.f kept rest hs hc n, refl))
    | inr (x, p) ↦ rw (p, rollback) (inl ((_, refl), (_, refl)))
  ]

  appended_lem :
      (start : ℕ) (line : Bytes) (w : (ℕ × Option String) × F) (s : Jsonl F)
      → s.poisoned ≡ none
      → start ≡ length (content s.f)
      → content w.1 ≡ content s.f ++ take w.0.0 line
      → let o = appended file decimal start line w s in
        Appended content line s o ⊎ (Refused content s o ⊎ Broken content o)
  unfolding appended
  appended_lem start line ((n, some e), f) s hp hs hc =
      failed (rollback_lem start e (record s { f = f }) (content s.f) (take n line) hs hc)
  appended_lem start line ((n, none), f) s hp hs hc = elim (Bool-cases (nat_eq n (length line))) [
    | inl e ↦
        let q : n ≡ length line = ground arith in
        rw e (inl (refl, (rw (q, take_whole line) at hc), hp))
    | inr e ↦
        rw e (failed (rollback_lem start _ (record s { f = f }) (content s.f) (take n line) hs hc))
  ]

  write_from_lem :
      (size : String ⊎ ℕ) (line : Bytes) (s : Jsonl F)
      → file.stat s.f ≡ size
      → s.poisoned ≡ none
      → let o = write_from file decimal size line s in
        Appended content line s o ⊎ (Refused content s o ⊎ Broken content o)
  unfolding write_from
  write_from_lem (inl e) line s h p = inr (inl ((_, refl), refl, refl))
  write_from_lem (inr start) line s h p =
      appended_lem start line (file.write s.f line) s p (laws.stat_size s.f start h)
        (laws.write_appends s.f line)

  write_locked_lem :
      (ctx_err poisoned : Option String) (line : Bytes) (s : Jsonl F)
      → s.poisoned ≡ poisoned
      → let o = write_locked file decimal ctx_err poisoned line s in
        Appended content line s o ⊎ (Refused content s o ⊎ Broken content o)
  unfolding write_locked
  write_locked_lem (some e) poisoned line s p = inr (inl ((_, refl), refl, refl))
  write_locked_lem none (some e) line s p = inr (inl ((_, refl), refl, refl))
  write_locked_lem none none line s p = write_from_lem (file.stat s.f) line s refl p

  write_raw_lem :
      (ctx_err : Option String) (m : String ⊎ Bytes) (s : Jsonl F)
      → let o = write_raw file decimal ctx_err m s in
        ((raw : Bytes) × (m ≡ inr raw) × Appended content (raw ++ 10 ∷ []) s o)
        ⊎ (Refused content s o ⊎ Broken content o)
  unfolding write_raw
  write_raw_lem ctx_err (inl e) s = inr (inl ((_, refl), refl, refl))
  write_raw_lem ctx_err (inr raw) s =
      with_bytes _ raw (write_locked_lem ctx_err s.poisoned (raw ++ 10 ∷ []) s refl)

  -- What `Write` does to the sink, on every branch.
  pub write_jsonl_lem :
      (marshal : Execution → String ⊎ Bytes) (r : Request) (s : Jsonl F)
      → let o = write_jsonl file decimal marshal r s in
        ((raw : Bytes) × (marshal r.ex ≡ inr raw) × Appended content (raw ++ 10 ∷ []) s o)
        ⊎ (Refused content s o ⊎ Broken content o)
  unfolding write_jsonl
  write_jsonl_lem marshal r s = elim (Option-cases r.ctx_err) [
    | inr (e, p) ↦ rw (p, write_jsonl) (inr (inl ((_, refl), refl, refl)))
    | inl n ↦ rw (n, write_jsonl) (write_raw_lem r.ctx_err_locked (marshal r.ex) s)
  ]
