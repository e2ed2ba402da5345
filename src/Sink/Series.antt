-- ===== src/Sink/Series.antt =====
-- What a series of calls of `Write` leaves in the file.
use mathlib.Core.Option.{none-ne-some}
use mathlib.Core.List.{append_assoc, append-nil}
use evidra_agentgateway_brid.Prelude.{
  ℕ, String, ◌≡◌, refl, sym, ap, ◌∙◌, ◌⊎◌, inl, inr, Option, none, some, List, [], ◌∷◌, ◌++◌,
  Option-cases,
}
use evidra_agentgateway_brid.Observation.{Execution}
use evidra_agentgateway_brid.Sink.{
  Bytes, JsonlFile, Jsonl, Request, write_locked, write_raw, write_jsonl,
}
use evidra_agentgateway_brid.Sink.Lines.{FileLaws, write_jsonl_lem}

-- The bytes of an execution in the file.
abbrev pub line_of : (Execution → String ⊎ Bytes) → Execution → Bytes
line_of marshal ex = elim (marshal ex) [ inl e ↦ [] | inr raw ↦ raw ++ 10 ∷ [] ]

abbrev pub lines : (Execution → String ⊎ Bytes) → List Execution → Bytes
lines marshal [] = []
lines marshal (ex ∷ rest) = line_of marshal ex ++ lines marshal rest

pub line_of-inr :
    (marshal : Execution → String ⊎ Bytes) (ex : Execution) (raw : Bytes)
    → marshal ex ≡ inr raw
    → line_of marshal ex ≡ raw ++ 10 ∷ []
line_of-inr marshal ex raw m = rw (m, line_of) refl

module _ {F : Type 0} (file : JsonlFile F) (decimal : ℕ → String)
    (marshal : Execution → String ⊎ Bytes) where
  abbrev accept : Option String → Execution → List Execution → List Execution
  accept none ex rest = ex ∷ rest
  accept (some e) ex rest = rest

  -- The executions whose write reports success, and the sink behind the series.
  abbrev pub write_all : List Request → Jsonl F → List Execution × Jsonl F
  write_all [] s = ([], s)
  write_all (r ∷ rs) s =
      let o = write_jsonl file decimal marshal r s in
      let rest = write_all rs o.1 in (accept o.0 r.ex rest.0, rest.1)

  abbrev pub IsError : Jsonl F → Option String × Jsonl F → Type 0
  IsError s o = (x : String) × (o ≡ (some x, s))

  locked_poisoned :
      (e : String) (ctx_err poisoned : Option String) (line : Bytes) (s : Jsonl F)
      → poisoned ≡ some e
      → IsError s (write_locked file decimal ctx_err poisoned line s)
  unfolding write_locked
  locked_poisoned e (some x) poisoned line s p = (_, refl)
  locked_poisoned e none (some x) line s p = (_, refl)
  locked_poisoned e none none line s p = absurd (cc p)

  raw_poisoned :
      (e : String) (ctx_err : Option String) (m : String ⊎ Bytes) (s : Jsonl F)
      → s.poisoned ≡ some e
      → IsError s (write_raw file decimal ctx_err m s)
  unfolding write_raw
  raw_poisoned e ctx_err (inl x) s p = (_, refl)
  raw_poisoned e ctx_err (inr raw) s p = locked_poisoned e ctx_err s.poisoned (raw ++ 10 ∷ []) s p

  pub write_poisoned :
      (e : String) (r : Request) (s : Jsonl F)
      → s.poisoned ≡ some e
      → IsError s (write_jsonl file decimal marshal r s)
  unfolding write_jsonl
  write_poisoned e r s p = elim (Option-cases r.ctx_err) [
    | inr (x, n) ↦ rw (n, write_jsonl) (_, refl)
    | inl n ↦ rw (n, write_jsonl) (raw_poisoned e r.ctx_err_locked (marshal r.ex) s p)
  ]

  -- A sink that is poisoned accepts nothing and leaves the file alone, for good.
  pub write_all_poisoned :
      (e : String) (rs : List Request) (s : Jsonl F)
      → s.poisoned ≡ some e
      → write_all rs s ≡ ([], s)
  write_all_poisoned e [] s p = refl
  write_all_poisoned e (r ∷ rs) s p =
      let (x, q) = write_poisoned e r s p in rw (q, write_all_poisoned e rs s p)

module _ {F : Type 0} (file : JsonlFile F) (decimal : ℕ → String)
    (marshal : Execution → String ⊎ Bytes) (content : F → Bytes)
    (laws : FileLaws file content) where
  -- Unless the sink has become poisoned, the file holds what it held and then one line for each
  -- execution whose write was reported to succeed, in order, whatever failed in between.
  pub write_all-lines :
      (rs : List Request) (s : Jsonl F)
      → s.poisoned ≡ none
      → (write_all file decimal marshal rs s).1.poisoned ≡ none
      → content (write_all file decimal marshal rs s).1.f
        ≡ content s.f ++ lines marshal (write_all file decimal marshal rs s).0
  write_all-lines [] s p q = sym (append-nil (content s.f))
  write_all-lines (r ∷ rs) s p q = elim (write_jsonl_lem file decimal content laws marshal r s) [
    | inl (raw, m, (e, c, k)) ↦
        let rest = write_all-lines rs (write_jsonl file decimal marshal r s).1 k q in
        rest
        ∙ (rw (e, c)
            (append_assoc (content s.f) (raw ++ 10 ∷ []) _
              ∙ ap
                  (λ l.
                    content s.f
                    ++ (l
                        ++ lines marshal
                            (write_all file decimal marshal rs
                              (write_jsonl file decimal marshal r s).1).0))
                  (sym (line_of-inr marshal r.ex raw m))))
    | inr (inl ((x, e), c, k)) ↦
        let rest = write_all-lines rs (write_jsonl file decimal marshal r s).1 (k ∙ p) q in
        rest ∙ (rw (e, c) refl)
    | inr (inr ((x, e), (y, k))) ↦ absurd (
        none-ne-some y (
          sym (
            rw
              (write_all_poisoned file decimal marshal y rs (write_jsonl file decimal marshal r s).1
                k)
              at q)
          ∙ k))
  ]
