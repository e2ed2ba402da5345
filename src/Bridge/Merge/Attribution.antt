-- ===== src/Bridge/Merge/Attribution.antt =====
-- Merging refines the combination of attributions, and keeps records honest.
use evidra_agentgateway_brid.Prelude.{String, ◌≡◌, refl, [], ◌∷◌}
use evidra_agentgateway_brid.Text.Space.{trim_space-nil}
use evidra_agentgateway_brid.Observation.{
  Correlation, correlated, unattributed, ambiguous, Execution, classify_operation,
}
use evidra_agentgateway_brid.Observation.Attribution.{
  Attribution, silent, conflict, claimed, combine, combine-silent, combine_comm, combine_assoc,
  combine_idem, reading, readings, attribution, IsHonest,
}
use evidra_agentgateway_brid.Observation.Classify.{classify_operation-readings}
use evidra_agentgateway_brid.Bridge.Merge.{merge_correlation, merge}

-- The attribution of a record, and that it is honest about it.
unfoldable pub attribution_of : Execution → Attribution
attribution_of ex = attribution ex.correlation ex.operation_id

abbrev pub IsHonestRecord : Execution → Type 0
IsHonestRecord ex = IsHonest ex.correlation ex.operation_id

combine-conflict : (a : Attribution) → combine a conflict ≡ conflict
unfolding combine
combine-conflict silent = refl
combine-conflict conflict = refl
combine-conflict (claimed i) = refl

reading_correlated : (id : String) → IsHonest correlated id → reading id ≡ claimed id
unfolding reading
reading_correlated id h = rw (h.1, h.2, h.0)

reading_unattributed : (id : String) → IsHonest unattributed id → reading id ≡ silent
unfolding reading
reading_unattributed id h = rw (h, trim_space-nil)

readings_pair : (i j : String) → readings (i ∷ j ∷ []) ≡ combine (reading i) (reading j)
unfolding readings
readings_pair i j = rw combine-silent

-- The statement for the four fields that `mergeCorrelation` reads.
abbrev Refines : Execution → Execution → Correlation → Correlation → Type 0
Refines base add c d =
    IsHonest c base.operation_id
    → IsHonest d add.operation_id
    → let m =
        merge_correlation (record base { correlation = c }) (record add { correlation = d }) in
      (attribution m.0 m.1
        ≡ combine (attribution c base.operation_id) (attribution d add.operation_id))
      × IsHonest m.0 m.1

refines_pair :
    (i j : String) (a b : Attribution)
    → reading i ≡ a
    → reading j ≡ b
    → let m = classify_operation (i ∷ j ∷ []) in
      (attribution m.0 m.1 ≡ combine a b) × IsHonest m.0 m.1
refines_pair i j a b p q =
    let (same, honest) = classify_operation-readings (i ∷ j ∷ []) in
    (rw (same, readings_pair i j, p, q), honest)

refines : (base add : Execution) (c d : Correlation) → Refines base add c d
unfolding merge_correlation attribution
refines base add ambiguous d h k = (unfold combine in refl, refl)
refines base add correlated ambiguous h k = (unfold combine in refl, refl)
refines base add unattributed ambiguous h k = (unfold combine in refl, refl)
refines base add correlated correlated h k =
    refines_pair base.operation_id add.operation_id _ _ (reading_correlated _ h)
      (reading_correlated _ k)
refines base add correlated unattributed h k =
    refines_pair base.operation_id add.operation_id _ _ (reading_correlated _ h)
      (reading_unattributed _ k)
refines base add unattributed correlated h k =
    refines_pair base.operation_id add.operation_id _ _ (reading_unattributed _ h)
      (reading_correlated _ k)
refines base add unattributed unattributed h k =
    refines_pair base.operation_id add.operation_id _ _ (reading_unattributed _ h)
      (reading_unattributed _ k)

module _ (quote : String → String) where
  -- Merging two honest records gives an honest record, whose attribution is the combination of
  -- theirs: a conflict is never resolved, and a silent signal changes nothing.
  pub merge-attribution :
      (base add : Execution)
      → IsHonestRecord base
      → IsHonestRecord add
      → (attribution_of (merge quote base add) ≡ combine (attribution_of base) (attribution_of add))
        × IsHonestRecord (merge quote base add)
  unfolding merge attribution_of
  merge-attribution base add h k = refines base add base.correlation add.correlation h k

  -- In whatever order and grouping three honest records are merged, the attribution is the same.
  pub merge-attribution_order :
      (a b c : Execution)
      → IsHonestRecord a
      → IsHonestRecord b
      → IsHonestRecord c
      → (attribution_of (merge quote (merge quote a b) c)
          ≡ attribution_of (merge quote a (merge quote b c)))
        × (attribution_of (merge quote a b) ≡ attribution_of (merge quote b a))
        × (attribution_of (merge quote a a) ≡ attribution_of a)
  merge-attribution_order a b c ha hb hc =
      let (ab, hab) = merge-attribution a b ha hb in
      let (bc, hbc) = merge-attribution b c hb hc in
      (
        rw (
          (merge-attribution (merge quote a b) c hab hc).0,
          (merge-attribution a (merge quote b c) ha hbc).0,
          ab,
          bc,
          combine_assoc,
        ),
        rw (ab, (merge-attribution b a hb ha).0) (combine_comm _ _),
        rw (merge-attribution a a ha ha).0 (combine_idem _),
      )
