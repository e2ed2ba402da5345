-- ===== src/Bridge/Processor/Complete/Assembled.antt =====
-- What an assembly does with the snapshots of its ready keys.
use mathlib.Core.Path.{subst}
use evidra_agentgateway_brid.Prelude.{
  String, ◌≡◌, refl, sym, true, ◌⊎◌, inl, inr, Option, none, some, List, [], ◌∷◌, ◌++◌, Elem, All,
  Bool-cases, List-cases,
}
use evidra_agentgateway_brid.Text.{◌⧺◌}
use evidra_agentgateway_brid.Dict.{flag}
use evidra_agentgateway_brid.Observation.{Time, Execution}
use evidra_agentgateway_brid.Bridge.State.{Processor}
use evidra_agentgateway_brid.Bridge.Assembly.{
  AssembledExecution, ready_keys, snapshots, sort_by_key, acknowledge, count_failure,
}
use evidra_agentgateway_brid.Bridge.Processor.{
  Sink, Outcome, write_to, emit_all, assemble_out, reserve_out, assemble,
}
use evidra_agentgateway_brid.Bridge.Processor.Emit.{
  emit_all_skip, emit_all_accepted, emit_all_failed,
}
use evidra_agentgateway_brid.Bridge.Processor.Interleaving.{idle, Reach}
use evidra_agentgateway_brid.Bridge.Processor.Interleaving.Frame.{
  acknowledge-IsEmitted, restore_reserved-frame,
}
use evidra_agentgateway_brid.Bridge.Processor.Interleaving.Ownership.{Owns, assemble_out-Owns}
use evidra_agentgateway_brid.Bridge.Processor.Interleaving.Sequential.{
  world, records, Wrote, write_cases, assemble-Traced,
}

module _ (quote : String → String) {S : Type 0} (sink : Option (Sink S)) where
  -- The sink has refused the record of one of these snapshots with the error that is reported.
  abbrev pub HasFailed : List AssembledExecution → Outcome S → Type 0
  HasFailed out o =
      (e : String) × (o.err ≡ some ("sink: " ⧺ e))
      × ((a : AssembledExecution) × Elem a out × ((t u : S) × (write_to sink t a.ex ≡ (some e, u))))

  -- There is no error, and the key of every snapshot is emitted.
  abbrev pub IsDone : List AssembledExecution → Outcome S → Type 0
  IsDone out o = (o.err ≡ none) × All (λ a. flag a.key o.processor.emitted ≡ true) out

  emit_all-emitted :
      (out : List AssembledExecution) (p : Processor) (s : S) (k : String)
      → flag k p.emitted ≡ true
      → flag k (emit_all quote sink out p s).processor.emitted ≡ true
  emit_all-emitted [] p s k h = unfold emit_all in h
  emit_all-emitted (a ∷ rest) p s k h = elim (Bool-cases (flag a.key p.emitted)) [
    | inl f ↦ rw (emit_all_skip quote sink a rest p s f) (emit_all-emitted rest p s k h)
    | inr f ↦ elim (write_cases (write_to sink s a.ex)) [
      | inl (t, w) ↦
          rw (emit_all_accepted quote sink a rest p s t f w)
            (emit_all-emitted rest (acknowledge a p) t k (acknowledge-IsEmitted a k p (inr h)))
      | inr (e, t, w) ↦
          rw
            (
              emit_all_failed quote sink a rest p s e t f w,
              (restore_reserved-frame quote (a ∷ rest) (count_failure p)).0,
            )
            (unfold count_failure in h)
    ]
  ]

  abbrev Ends : List AssembledExecution → Outcome S → Type 0
  Ends out o = IsDone out o ⊎ HasFailed out o

  one_more :
      (a : AssembledExecution) (rest : List AssembledExecution) (o : Outcome S)
      → flag a.key o.processor.emitted ≡ true
      → Ends rest o
      → Ends (a ∷ rest) o
  one_more a rest o f (inl (n, d)) = inl (n, (f, d))
  one_more a rest o f (inr (e, g, (b, m, w))) = inr (e, g, (b, inr m, w))

  emit_all-Ends :
      (out : List AssembledExecution) (p : Processor) (s : S)
      → All Owns out
      → Ends out (emit_all quote sink out p s)
  emit_all-Ends [] p s h = unfold emit_all in inl (refl, tt)
  emit_all-Ends (a ∷ rest) p s (o, h) = elim (Bool-cases (flag a.key p.emitted)) [
    | inl f ↦ subst (Ends (a ∷ rest)) (sym (emit_all_skip quote sink a rest p s f)) (
        one_more a rest (emit_all quote sink rest p s) (emit_all-emitted rest p s a.key f)
          (emit_all-Ends rest p s h))
    | inr f ↦ elim (write_cases (write_to sink s a.ex)) [
      | inl (t, w) ↦
          let q = acknowledge a p in
          subst (Ends (a ∷ rest)) (sym (emit_all_accepted quote sink a rest p s t f w)) (
            one_more a rest (emit_all quote sink rest q t)
              (emit_all-emitted rest q t a.key (acknowledge-IsEmitted a a.key p (inl o)))
              (emit_all-Ends rest q t h))
      | inr (e, t, w) ↦
          subst (Ends (a ∷ rest)) (sym (emit_all_failed quote sink a rest p s e t f w))
            (inr (e, refl, (a, inl refl, (s, t, w))))
    ]
  ]

  none_out :
      (cutoff : Time) (order : List (String × Execution)) (p : Processor)
      → ready_keys cutoff p ≡ []
      → assemble_out quote cutoff order p ≡ []
  unfolding assemble_out snapshots sort_by_key
  none_out cutoff order p e = rw e refl

  assemble-Ends :
      (cutoff : Time) (order : List (String × Execution)) (p : Processor) (s : S)
      → Ends (assemble_out quote cutoff order p) (assemble quote sink cutoff order p s)
  unfolding assemble
  assemble-Ends cutoff order p s = elim (List-cases (ready_keys cutoff p)) [
    | inl e ↦
        subst (λ l. Ends l (assemble quote sink cutoff order p s)) (sym (none_out cutoff order p e))
          (inl (rw (e, assemble) refl, tt))
    | inr (key, rest, e) ↦
        let out = assemble_out quote cutoff order p in
        rw (e, assemble)
          (emit_all-Ends out (reserve_out out p) s (assemble_out-Owns quote cutoff order p))
  ]

  -- Whatever the sink answers, an assembly is a run of the interleaved model that writes exactly what
  -- the sink accepts, and leaves the mutex free. Either it reports no error, and the key of every
  -- snapshot of a ready key is emitted, or it reports the error with which the sink has refused one of
  -- these snapshots.
  pub assemble_lem :
      (Admitted : Execution → Type 0) (cutoff : Time) (order : List (String × Execution))
      (p : Processor) (s : S) (l : List AssembledExecution)
      → (let o = assemble quote sink cutoff order p s in
          ((new : List AssembledExecution) × Reach quote Admitted
              (world p idle l)
              (world o.processor idle (new ++ l))
            × Wrote sink s (records new) o.sink_state)
          × (IsDone (assemble_out quote cutoff order p) o
              ⊎ HasFailed (assemble_out quote cutoff order p) o))
  assemble_lem Admitted cutoff order p s l =
      (assemble-Traced quote Admitted sink cutoff order p s l, assemble-Ends cutoff order p s)
