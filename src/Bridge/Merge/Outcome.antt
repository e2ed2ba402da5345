-- ===== src/Bridge/Merge/Outcome.antt =====
-- What merging keeps of the outcome: a failure, an offered payload, and who objected.
use Prim.Native.Nat.{max}
use mathlib.Core.List.{append-nil, append_assoc}
use evidra_agentgateway_brid.Prelude.{
  ℕ, String, ◌≡◌, ◌↔◌, ◌⊎◌, refl, List, [], ◌++◌, arith, length, length-append, ◌==◌, ◌||◌, ◌+◌,
  if◌then◌else◌, eq_iff, Bool-cases, inl, inr,
}
use evidra_agentgateway_brid.Observation.{
  Status, success, error, cancelled, unknown, Availability, present, absent, not_emitted,
  omitted_size, refused_raw, Execution,
}
use evidra_agentgateway_brid.Bridge.Merge.{
  rank, stronger_availability, merged_status, status_objection, merge_status, merge_field, merge,
  merge_correlation,
}

-- How strong an assertion is: a failure outranks a cancellation, that a success, that silence.
abbrev pub severity : Status → ℕ
severity unknown = 0
severity success = 1
severity cancelled = 2
severity error = 3

merged_status-severity :
    (a b : Status) → severity (merged_status a b) ≡ max (severity a) (severity b)
unfolding merged_status
merged_status-severity success success = refl
merged_status-severity success error = refl
merged_status-severity success cancelled = refl
merged_status-severity success unknown = refl
merged_status-severity error success = refl
merged_status-severity error error = refl
merged_status-severity error cancelled = refl
merged_status-severity error unknown = refl
merged_status-severity cancelled success = refl
merged_status-severity cancelled error = refl
merged_status-severity cancelled cancelled = refl
merged_status-severity cancelled unknown = refl
merged_status-severity unknown success = refl
merged_status-severity unknown error = refl
merged_status-severity unknown cancelled = refl
merged_status-severity unknown unknown = refl

rank-stronger : (a b : Availability) → rank (stronger_availability a b) ≡ max (rank a) (rank b)
unfolding stronger_availability rank
rank-stronger a b = ground arith

stronger-eq-refused_raw_iff :
    (a b : Availability)
    → (stronger_availability a b ≡ refused_raw) ↔ ((a ≡ refused_raw) ⊎ (b ≡ refused_raw))
unfolding stronger_availability
stronger-eq-refused_raw_iff present b = ground arith
stronger-eq-refused_raw_iff absent b = ground arith
stronger-eq-refused_raw_iff not_emitted b = ground arith
stronger-eq-refused_raw_iff omitted_size b = ground arith
stronger-eq-refused_raw_iff refused_raw b = ground arith

-- How many entries two values of a field call for: one if both say something and they differ.
abbrev pub clash : String → String → ℕ
clash a b = if a == "" || (b == "" || a == b) then 0 else 1

abbrev pub status_clash : Status → Status → ℕ
status_clash unknown b = 0
status_clash a unknown = 0
status_clash success success = 0
status_clash error error = 0
status_clash cancelled cancelled = 0
status_clash _ _ = 1

status_objection-length :
    (base add : Execution) (s t : Status)
    → length (status_objection (record base { status = s }) (record add { status = t }))
      ≡ status_clash s t
unfolding status_objection
status_objection-length base add success success = refl
status_objection-length base add success _ = refl
status_objection-length base add error error = refl
status_objection-length base add error _ = refl
status_objection-length base add cancelled cancelled = refl
status_objection-length base add cancelled _ = refl
status_objection-length base add unknown success = refl
status_objection-length base add unknown _ = refl

module _ (quote : String → String) where
  field_objection : String → String → String → List String
  field_objection name a b = (merge_field quote name a b []).1

  merge_field-append :
      (name a b : String) (dis : List String)
      → (merge_field quote name a b dis).1 ≡ dis ++ field_objection name a b
  unfolding merge_field field_objection
  merge_field-append name a b dis = elim (Bool-cases (a == b || b == "")) [
    | inl e ↦ rw (e, field_objection) (rw append-nil)
    | inr e ↦ elim (Bool-cases (a == "")) [
      | inl f ↦ rw (e, f, field_objection) (rw append-nil)
      | inr f ↦ rw (e, f, field_objection)
    ]
  ]

  field_objection-length : (name a b : String) → length (field_objection name a b) ≡ clash a b
  unfolding merge_field field_objection
  field_objection-length name a b = ground (arith, eq_iff a b, eq_iff a "", eq_iff b "")

  -- The merged status is the graver of the two, whichever record is the base.
  pub merge-severity :
      (base add : Execution)
      → severity (merge quote base add).status ≡ max (severity base.status) (severity add.status)
  unfolding merge merge_status
  merge-severity base add = merged_status-severity base.status add.status

  -- A payload that one signal was offered and refused is still reported after merging.
  pub merge-refused_raw :
      (base add : Execution)
      → ((merge quote base add).arguments_fingerprint_status ≡ refused_raw ↔ (
          (base.arguments_fingerprint_status ≡ refused_raw)
          ⊎ (add.arguments_fingerprint_status ≡ refused_raw)))
        × ((merge quote base add).result_fingerprint_status ≡ refused_raw ↔ (
            (base.result_fingerprint_status ≡ refused_raw)
            ⊎ (add.result_fingerprint_status ≡ refused_raw)))
  unfolding merge
  merge-refused_raw base add = (stronger-eq-refused_raw_iff _ _, stronger-eq-refused_raw_iff _ _)

  -- Merging keeps the objections of the base and adds one for each of tool, target and status in
  -- which both records say something and say different things.
  pub merge-objections :
      (base add : Execution)
      → (new : List String) × ((merge quote base add).disagreements ≡ base.disagreements ++ new)
        × (length new
            ≡ clash base.tool add.tool
              + clash base.target add.target
              + status_clash base.status add.status)
  unfolding merge merge_status
  merge-objections base add = (
    field_objection "tool" base.tool add.tool
        ++ (field_objection "target" base.target add.target ++ status_objection base add),
    rw (
      merge_field-append "target" base.target add.target _,
      merge_field-append "tool" base.tool add.tool base.disagreements,
      append_assoc,
      append_assoc,
    ),
    omega (
      arith,
      length-append (field_objection "tool" base.tool add.tool)
          (field_objection "target" base.target add.target ++ status_objection base add),
      length-append (field_objection "target" base.target add.target) (status_objection base add),
      field_objection-length "tool" base.tool add.tool,
      field_objection-length "target" base.target add.target,
      status_objection-length base add base.status add.status,
    ),
  )

  -- What the second record had recorded as objections does not reach the merged record.
  pub merge_forgets_objections :
      (base add : Execution) (dis : List String)
      → merge quote base (record add { disagreements = dis }) ≡ merge quote base add
  unfolding merge merge_status merge_correlation status_objection
  merge_forgets_objections base add dis = refl
