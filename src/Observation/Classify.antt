-- ===== src/Observation/Classify.antt =====
-- `ClassifyOperation` computes the combination of the readings, whatever the ids.
use evidra_agentgateway_brid.Prelude.{
  String, ◌≡◌, refl, true, false, List, [], ◌∷◌, ◌==◌, Bool-cases, All, text_cases, eq_comm, inl,
  inr, if◌then◌else◌,
}
use evidra_agentgateway_brid.Text.{trim_space}
use evidra_agentgateway_brid.Text.Space.{trim_space_idem}
use evidra_agentgateway_brid.Observation.{
  valid_operation_id, present_ids, agree, classify_present, classify_operation,
}
use evidra_agentgateway_brid.Observation.Attribution.{
  Attribution, silent, conflict, claimed, combine, combine_assoc, combine_idem, combine-silent,
  reading, readings, attribution, IsHonest,
}

reading-trim_space : (id : String) → reading (trim_space id) ≡ reading id
unfolding reading valid_operation_id
reading-trim_space id = rw trim_space_idem

reading_blank : (id : String) → (trim_space id == "") ≡ true → reading id ≡ silent
unfolding reading
reading_blank id e = rw e

silent-combine : (a : Attribution) → combine silent a ≡ a
unfolding combine
silent-combine a = refl

-- The readings of the ids that are left are those of all.
readings-present_ids : (ids : List String) → readings (present_ids ids) ≡ readings ids
unfolding readings present_ids
readings-present_ids [] = refl
readings-present_ids (id ∷ ids) = elim (Bool-cases (trim_space id == "")) [
  | inl e ↦ rw (e, reading_blank id e, silent-combine) (readings-present_ids ids)
  | inr e ↦ rw (e, reading-trim_space id, readings-present_ids ids)
]

-- A text that is trimmed and not empty, as every present id is.
abbrev IsPresent : String → Type 0
IsPresent id = (trim_space id ≡ id) × ((id == "") ≡ false)

present_ids-IsPresent : (ids : List String) → All IsPresent (present_ids ids)
unfolding present_ids
present_ids-IsPresent [] = tt
present_ids-IsPresent (id ∷ ids) = elim (Bool-cases (trim_space id == "")) [
  | inl e ↦ rw e (present_ids-IsPresent ids)
  | inr e ↦ rw e ((trim_space_idem id, e), present_ids-IsPresent ids)
]

reading_valid :
    (id : String) → IsPresent id → valid_operation_id id ≡ true → reading id ≡ claimed id
unfolding reading
reading_valid id h v = rw (h.0, h.1, v)

reading_invalid :
    (id : String) → IsPresent id → valid_operation_id id ≡ false → reading id ≡ conflict
unfolding reading
reading_invalid id h v = rw (h.0, h.1, v)

reading_ne :
    (i j : String)
    → IsPresent i
    → IsPresent j
    → (j == i) ≡ false
    → combine (reading i) (reading j) ≡ conflict
unfolding combine
reading_ne i j hi hj n = elim (Bool-cases (valid_operation_id i)) [
  | inl v ↦ elim (Bool-cases (valid_operation_id j)) [
    | inl w ↦ rw (reading_valid i hi v, reading_valid j hj w, eq_comm i j, n)
    | inr w ↦ rw (reading_valid i hi v, reading_invalid j hj w)
  ]
  | inr v ↦ rw (reading_invalid i hi v)
]

conflict-combine : (a : Attribution) → combine conflict a ≡ conflict
unfolding combine
conflict-combine a = refl

readings-agree :
    (first : String) (rest : List String)
    → IsPresent first
    → All IsPresent rest
    → combine (reading first) (readings rest)
      ≡ (if agree first rest then reading first else conflict)
unfolding readings agree
readings-agree first [] h k = combine-silent (reading first)
readings-agree first (id ∷ ids) h (hi, k) = elim (text_cases id first) [
  | inl (e, p) ↦
      rw (e, p, ← combine_assoc (reading first) (reading first) (readings ids), combine_idem)
        (readings-agree first ids h k)
  | inr (n, p) ↦ rw (
    n,
    ← combine_assoc (reading first) (reading id) (readings ids),
    reading_ne first id h hi n,
    conflict-combine,
  )
]

-- The two cases of a list of present ids that is not empty.
present_cases :
    (first : String) (rest : List String)
    → IsPresent first
    → All IsPresent rest
    → let c = classify_present (first ∷ rest) in
      (attribution c.0 c.1 ≡ combine (reading first) (readings rest)) × IsHonest c.0 c.1
unfolding classify_present attribution
present_cases first rest h k =
    rw (readings-agree first rest h k) (elim (Bool-cases (agree first rest)) [
      | inl a ↦ elim (Bool-cases (valid_operation_id first)) [
        | inl v ↦ rw (a, v, reading_valid first h v) (refl, (v, h.0, h.1))
        | inr v ↦ rw (a, v, reading_invalid first h v) (refl, refl)
      ]
      | inr a ↦ rw a (refl, refl)
    ])

classify_present_lem :
    (ids : List String)
    → All IsPresent ids
    → let c = classify_present ids in (attribution c.0 c.1 ≡ readings ids) × IsHonest c.0 c.1
unfolding readings
classify_present_lem [] h = unfold classify_present attribution in (refl, refl)
classify_present_lem (first ∷ rest) (h, k) = present_cases first rest h k

-- Whatever ids are found, the classification states their combined reading, and it carries an id
-- exactly when it is correlated, trimmed and well formed.
pub classify_operation-readings :
    (found : List String)
    → let c = classify_operation found in (attribution c.0 c.1 ≡ readings found) × IsHonest c.0 c.1
unfolding classify_operation
classify_operation-readings found =
    rw (← readings-present_ids found)
      (classify_present_lem (present_ids found) (present_ids-IsPresent found))
