-- ===== src/Service/Sinks.antt =====
-- The JSONL sink as the processor sees it: what it accepted is what the file gained.
use mathlib.Core.Option.{none-ne-some}
use mathlib.Core.List.{append-nil, append_assoc}
use evidra_agentgateway_brid.Prelude.{
  ℕ, String, ◌≡◌, refl, sym, ap, ◌∙◌, ◌⊎◌, inl, inr, Option, none, some, List, [], ◌∷◌, ◌++◌,
  Option-cases,
}
use evidra_agentgateway_brid.Observation.{Execution}
use evidra_agentgateway_brid.Bridge.Processor.{Sink, write_to}
use evidra_agentgateway_brid.Bridge.Processor.Interleaving.Sequential.{
  Wrote, quiet, accepted, refused,
}
use evidra_agentgateway_brid.Sink.{Bytes, JsonlFile, Jsonl, Request, write_jsonl}
use evidra_agentgateway_brid.Sink.Lines.{FileLaws, write_jsonl_lem}
use evidra_agentgateway_brid.Sink.Series.{line_of, line_of-inr, write_poisoned}
use evidra_agentgateway_brid.Service.{SinkState, write_sink, jsonl_sink}

-- The lines of executions that were written newest first.
abbrev pub file_lines : (Execution → String ⊎ Bytes) → List Execution → Bytes
file_lines marshal [] = []
file_lines marshal (ex ∷ older) = file_lines marshal older ++ line_of marshal ex

module _ {C F : Type 0} (file : JsonlFile F) (decimal : ℕ → String)
    (marshal : Execution → String ⊎ Bytes) (ctx_err : C → Option String × C) (content : F → Bytes)
    (laws : FileLaws file content) where
  -- The execution's line is in the file, or the file is what it was, as the result says.
  abbrev Told : Execution → Bytes → Option String → Bytes → Type 0
  Told ex before err after =
      ((err ≡ none) × (after ≡ before ++ line_of marshal ex))
      ⊎ (((e : String) × (err ≡ some e)) × (after ≡ before))

  write_jsonl-Told :
      (r : Request) (s : Jsonl F)
      → (write_jsonl file decimal marshal r s).1.poisoned ≡ none
      → (s.poisoned ≡ none)
        × Told r.ex
            (content s.f)
            (write_jsonl file decimal marshal r s).0
            (content (write_jsonl file decimal marshal r s).1.f)
  write_jsonl-Told r s h = elim (Option-cases s.poisoned) [
    | inr (e, p) ↦
        let (x, q) = write_poisoned file decimal marshal e r s p in
        absurd (none-ne-some e (sym (rw q at h) ∙ p))
    | inl p ↦ elim (write_jsonl_lem file decimal content laws marshal r s) [
      | inl (raw, m, (e, c, k)) ↦
          (p, inl (e, c ∙ ap (λ l. content s.f ++ l) (sym (line_of-inr marshal r.ex raw m))))
      | inr (inl ((x, e), c, k)) ↦ (p, inr ((x, e), c))
      | inr (inr ((x, e), (y, k))) ↦ absurd (none-ne-some y (sym h ∙ k))
    ]
  ]

  -- What one write leaves, where the sink is not poisoned behind it.
  write_sink-Told :
      (s : SinkState C F) (ex : Execution)
      → (write_sink file decimal marshal ctx_err s ex).1.out.poisoned ≡ none
      → (s.out.poisoned ≡ none)
        × Told ex
            (content s.out.f)
            (write_sink file decimal marshal ctx_err s ex).0
            (content (write_sink file decimal marshal ctx_err s ex).1.out.f)
  unfolding write_sink
  write_sink-Told s ex h =
      write_jsonl-Told
        (record {
          ex = ex;
          ctx_err = (ctx_err s.contexts).0;
          ctx_err_locked = (ctx_err (ctx_err s.contexts).1).0;
        })
        s.out h

  abbrev sink_of : Option (Sink (SinkState C F))
  sink_of = some (jsonl_sink file decimal marshal ctx_err)

  write_to_sink :
      (s : SinkState C F) (ex : Execution)
      → write_to sink_of s ex ≡ write_sink file decimal marshal ctx_err s ex
  unfolding write_to jsonl_sink
  write_to_sink s ex = refl

  -- What the sink accepted is what the file gained, unless the sink is poisoned.
  pub Wrote-file_lines :
      {s u : SinkState C F} {l : List Execution}
      → Wrote sink_of s l u
      → u.out.poisoned ≡ none
      → (content u.out.f ≡ content s.out.f ++ file_lines marshal l) × (s.out.poisoned ≡ none)
  Wrote-file_lines {s} quiet h = (sym (append-nil (content s.out.f)), h)
  Wrote-file_lines {s} (accepted {l} {t} {u} ex r e) h =
      let (p, told) = (rw (sym (write_to_sink t ex) ∙ e) at (write_sink-Told t ex)) h in
      let (c, q) = Wrote-file_lines r p in
      elim told [
        | inl (n, g) ↦ (g ∙ (rw c (append_assoc (content s.out.f) (file_lines marshal l) _)), q)
        | inr ((x, n), g) ↦ absurd (none-ne-some x n)
      ]
  Wrote-file_lines {s} (refused {l} {t} {u} ex x r e) h =
      let (p, told) = (rw (sym (write_to_sink t ex) ∙ e) at (write_sink-Told t ex)) h in
      let (c, q) = Wrote-file_lines r p in
      elim told [ inl (n, g) ↦ absurd (none-ne-some x (sym n)) | inr (y, g) ↦ (g ∙ c, q) ]
