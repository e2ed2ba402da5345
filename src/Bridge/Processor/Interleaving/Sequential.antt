-- ===== src/Bridge/Processor/Interleaving/Sequential.antt =====
-- `assemble`, run without interruption, takes the steps of the interleaved model.
use mathlib.Core.List.{append_assoc, map-append}
use evidra_agentgateway_brid.Prelude.{
  String, ◌≡◌, refl, Option, none, some, List, [], ◌∷◌, ◌++◌, ◌⊎◌, inl, inr, map, Bool-cases,
  List-cases,
}
use evidra_agentgateway_brid.Dict.{flag}
use evidra_agentgateway_brid.Observation.{Time, Execution}
use evidra_agentgateway_brid.Bridge.State.{Processor}
use evidra_agentgateway_brid.Bridge.Assembly.{AssembledExecution, ready_keys, acknowledge}
use evidra_agentgateway_brid.Bridge.Processor.{
  Sink, Outcome, write_to, emit_all, assemble_out, reserve_out, assemble,
}
use evidra_agentgateway_brid.Bridge.Processor.Emit.{
  emit_all_skip, emit_all_accepted, emit_all_failed,
}
use evidra_agentgateway_brid.Bridge.Processor.Interleaving.{
  World, Control, idle, running, Step, claim, skip, begin, succeed, fail, roll_back, finish, Reach,
  here, next,
}

abbrev pub world : Processor → Control → List AssembledExecution → World
world p c l = record { processor = p; control = c; written = l }

module _ (quote : String → String) (Admitted : Execution → Type 0) where
  pub Reach-trans :
      {w u v : World}
      → Reach quote Admitted w u
      → Reach quote Admitted u v
      → Reach quote Admitted w v
  Reach-trans r here = r
  Reach-trans r (next s st) = next (Reach-trans r s) st

  after :
      {w u v : World}
      → Step quote Admitted w u
      → Reach quote Admitted u v
      → Reach quote Admitted w v
  after st r = Reach-trans (next here st) r

-- What `sink.Write` gave, with the equation.
pub write_cases {ℓ} :
    {S : Type ℓ} (r : Option String × S)
    → ((t : S) × (r ≡ (none, t))) ⊎ ((e : String) × (t : S) × (r ≡ (some e, t)))
write_cases (none, t) = inl (t, refl)
write_cases (some e, t) = inr (e, t, refl)

-- What a sink has done between two of its states: the executions that it accepted, newest first.
module _ {S : Type 0} (sink : Option (Sink S)) where
  pub data Wrote (s : S) : List Execution → S → Type 0 where
    quiet : Wrote s [] s
    accepted :
        {l : List Execution} {t u : S} (ex : Execution)
        → Wrote s l t
        → write_to sink t ex ≡ (none, u)
        → Wrote s (ex ∷ l) u
    refused :
        {l : List Execution} {t u : S} (ex : Execution) (e : String)
        → Wrote s l t
        → write_to sink t ex ≡ (some e, u)
        → Wrote s l u

  pub Wrote-trans :
      {s t u : S} {l m : List Execution} → Wrote s l t → Wrote t m u → Wrote s (m ++ l) u
  Wrote-trans r quiet = r
  Wrote-trans r (accepted ex q e) = accepted ex (Wrote-trans r q) e
  Wrote-trans r (refused ex e q f) = refused ex e (Wrote-trans r q) f

abbrev pub records : List AssembledExecution → List Execution
records = map (λ a. a.ex)

module _ (quote : String → String) (Admitted : Execution → Type 0) {S : Type 0}
    (sink : Option (Sink S)) where
  -- Where a run ends, with what the sink was given meanwhile.
  abbrev pub Traced : Processor → Control → List AssembledExecution → S → Outcome S → Type 0
  Traced p c l s o =
      (new : List AssembledExecution) × Reach quote Admitted (world p c l)
        (world o.processor idle (new ++ l))
      × Wrote sink s (records new) o.sink_state

  emit_all-Traced :
      (out : List AssembledExecution) (p : Processor) (s : S) (l : List AssembledExecution)
      → Traced p (running out) l s (emit_all quote sink out p s)
  emit_all-Traced [] p s l = unfold emit_all in ([], next here (finish refl refl), quiet)
  emit_all-Traced (a ∷ rest) p s l = elim (Bool-cases (flag a.key p.emitted)) [
    | inl f ↦
        let (new, r, w) = emit_all-Traced rest p s l in
        rw (emit_all_skip quote sink a rest p s f)
          (new, after quote Admitted (skip a rest refl f refl) r, w)
    | inr f ↦ elim (write_cases (write_to sink s a.ex)) [
      | inl (t, e) ↦
          let (new, r, w) = emit_all-Traced rest (acknowledge a p) t (a ∷ l) in
          rw (emit_all_accepted quote sink a rest p s t f e) (
            new ++ a ∷ [],
            rw append_assoc (
                after quote Admitted (begin a rest refl f refl)
                  (after quote Admitted (succeed a rest refl refl) r)),
            rw map-append (Wrote-trans sink (accepted a.ex quiet e) w),
          )
      | inr (e, t, f') ↦ rw (emit_all_failed quote sink a rest p s e t f f') (
        [],
        after quote Admitted (begin a rest refl f refl) (
            after quote Admitted (fail a rest refl refl)
              (next here (roll_back (a ∷ rest) refl refl))),
        refused a.ex e quiet f',
      )
    ]
  ]

  -- An assembly is a run of the interleaved model, and the records that the run writes are those that
  -- the sink accepts.
  pub assemble-Traced :
      (cutoff : Time) (order : List (String × Execution)) (p : Processor) (s : S)
      (l : List AssembledExecution)
      → Traced p idle l s (assemble quote sink cutoff order p s)
  unfolding assemble
  assemble-Traced cutoff order p s l = elim (List-cases (ready_keys cutoff p)) [
    | inl e ↦ rw (e, assemble) ([], here, quiet)
    | inr (key, rest, e) ↦
        let out = assemble_out quote cutoff order p in
        let (new, r, w) = emit_all-Traced out (reserve_out out p) s l in
        rw (e, assemble) (new, after quote Admitted (claim cutoff order refl refl) r, w)
  ]
