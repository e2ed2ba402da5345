-- ===== src/Observation/Attribution.antt =====
-- What correlation promises, without the order of the signals or the wording of the detail: an
-- execution is claimed by no operation, by one, or by a conflict. The three form a semilattice.
use evidra_agentgateway_brid.Prelude.{
  String, ◌≡◌, refl, true, false, List, [], ◌∷◌, arith, eq_iff, eq_refl, ◌==◌, if◌then◌else◌,
}
use evidra_agentgateway_brid.Text.{trim_space}
use evidra_agentgateway_brid.Observation.{
  Correlation, correlated, unattributed, ambiguous, valid_operation_id,
}

pub data Attribution : Type 0 where
  silent conflict : Attribution
  claimed : String → Attribution

unfoldable pub combine : Attribution → Attribution → Attribution
combine silent b = b
combine conflict b = conflict
combine (claimed i) silent = claimed i
combine (claimed i) conflict = conflict
combine (claimed i) (claimed j) = if i == j then claimed i else conflict

pub combine_comm : (a b : Attribution) → combine a b ≡ combine b a
unfolding combine
combine_comm silent silent = refl
combine_comm silent conflict = refl
combine_comm silent (claimed j) = refl
combine_comm conflict silent = refl
combine_comm conflict conflict = refl
combine_comm conflict (claimed j) = refl
combine_comm (claimed i) silent = refl
combine_comm (claimed i) conflict = refl
combine_comm (claimed i) (claimed j) = ground (arith, eq_iff i j, eq_iff j i)

pub combine_assoc : (a b c : Attribution) → combine (combine a b) c ≡ combine a (combine b c)
unfolding combine
combine_assoc silent b c = refl
combine_assoc conflict b c = refl
combine_assoc (claimed i) silent c = refl
combine_assoc (claimed i) conflict c = refl
combine_assoc (claimed i) (claimed j) silent = ground arith
combine_assoc (claimed i) (claimed j) conflict = ground arith
combine_assoc (claimed i) (claimed j) (claimed k) =
    ground (arith, eq_iff i j, eq_iff j k, eq_iff i k)

pub combine_idem : (a : Attribution) → combine a a ≡ a
unfolding combine
combine_idem silent = refl
combine_idem conflict = refl
combine_idem (claimed i) = rw eq_refl

pub combine-silent : (a : Attribution) → combine a silent ≡ a
unfolding combine
combine-silent silent = refl
combine-silent conflict = refl
combine-silent (claimed i) = refl

-- What one correlation value says by itself.
unfoldable pub reading : String → Attribution
reading id =
    if trim_space id == ""
    then silent
    else if valid_operation_id id
    then claimed (trim_space id)
    else conflict

unfoldable pub readings : List String → Attribution
readings [] = silent
readings (id ∷ ids) = combine (reading id) (readings ids)

-- The attribution that a classified record states.
unfoldable pub attribution : Correlation → String → Attribution
attribution correlated id = claimed id
attribution unattributed id = silent
attribution ambiguous id = conflict

-- A record carries an operation id exactly when it is correlated, and that id is trimmed and of the
-- shape that Evidra issues.
abbrev pub IsHonest : Correlation → String → Type 0
IsHonest correlated id =
    (valid_operation_id id ≡ true) × (trim_space id ≡ id) × ((id == "") ≡ false)
IsHonest unattributed id = id ≡ ""
IsHonest ambiguous id = id ≡ ""
