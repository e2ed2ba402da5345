-- ===== src/Bridge/Processor/Complete/Taken.antt =====
-- Which of the ready keys an assembly takes: those that no buffered span names as its parent.
use mathlib.Core.Option.{none-ne-some}
use evidra_agentgateway_brid.Prelude.{
  String, refl, ◌≡◌, ◌≢◌, sym, ap, ◌∙◌, ◌↔◌, true, inl, inr, some, List, [], Elem, Bool-cases,
  Option-cases, text_cases,
}
use evidra_agentgateway_brid.Dict.{get}
use evidra_agentgateway_brid.Observation.{Time, Execution}
use evidra_agentgateway_brid.Bridge.State.{Buffers, Processor}
use evidra_agentgateway_brid.Bridge.Assembly.{
  AssembledExecution, ready_keys, names_parent, parent_key, children, is_claimed,
}
use evidra_agentgateway_brid.Bridge.Processor.{assemble_out}
use evidra_agentgateway_brid.Bridge.Processor.Interleaving.Coherent.{
  Visits, IsTaken, snapshots-IsTaken, Elem_All, own_key, children-named, children-Named,
}
use evidra_agentgateway_brid.Bridge.Processor.Interleaving.Ownership.{sort_by_key-All}
use evidra_agentgateway_brid.Bridge.Processor.Interleaving.Sound.{has_data}
use evidra_agentgateway_brid.Bridge.Processor.Complete.Snapshots.{
  sort_by_key-Elem, snapshots-Elem, assembled,
}

-- A buffered client span names the key as its parent.
abbrev pub IsNamed : Buffers → String → Type 0
IsNamed b k =
    (c : String) × (sp : Execution) × (get c b.spans ≡ some sp)
    × (names_parent sp ≡ true)
    × (parent_key sp ≡ k)

-- No buffered span names itself as its parent.
abbrev pub HasNoSelf : Buffers → Type 0
HasNoSelf b =
    (c : String) (sp : Execution)
    → get c b.spans ≡ some sp
    → names_parent sp ≡ true
    → parent_key sp ≢ c

module _ (order : List (String × Execution)) (b : Buffers) (v : Visits order b.spans)
    (n : HasNoSelf b) where
  claimed-IsNamed : (k : String) → is_claimed (children order []) k ≡ true → IsNamed b k
  unfolding is_claimed get
  claimed-IsNamed k h = elim (Option-cases (get k (children order []))) [
    | inl e ↦ absurd (cc (rw (e, is_claimed) at h))
    | inr (c, e) ↦ elim (children-Named order [] k c e) [
      | inl (sp, m, p, q) ↦ (c, sp, (v c sp).1 m, p, q)
      | inr x ↦ absurd (none-ne-some c x)
    ]
  ]

  IsNamed-claimed : (k : String) → IsNamed b k → is_claimed (children order []) k ≡ true
  unfolding is_claimed get
  IsNamed-claimed k (c, sp, g, p, q) =
      let (d, e) = children-named order [] c sp ((v c sp).0 g) p in
      let at : get k (children order []) ≡ some d =
        sym (ap (λ z. get z (children order [])) q) ∙ e in
      elim (children-Named order [] k d at) [
        | inl (sp', m, p', q') ↦ elim (text_cases d k) [
          | inl (t, same) ↦ absurd (n d sp' ((v d sp').1 m) p' (q' ∙ sym same))
          | inr (t, other) ↦ rw (at, is_claimed, t) refl
        ]
        | inr x ↦ absurd (none-ne-some d x)
      ]

module _ (quote : String → String) where
  -- Where the range visits exactly the buffered spans and none of these names itself as its parent: an
  -- assembly takes a snapshot of a ready key with signals exactly when no buffered client span names
  -- the key as its parent, whether or not the span that names it is taken itself.
  pub assemble_out-IsNamed_iff :
      (cutoff : Time) (order : List (String × Execution)) (p : Processor) (k : String)
      → Visits order p.active.spans
      → HasNoSelf p.active
      → has_data k p.active ≡ true
      → Elem k (ready_keys cutoff p)
      → ((a : AssembledExecution) × Elem a (assemble_out quote cutoff order p) × (a.key ≡ k))
        ↔ ¬ IsNamed p.active k
  unfolding assemble_out
  assemble_out-IsNamed_iff cutoff order p k v n d r = (
    λ (a, m, e) h.
        let (s, f) =
          Elem_All (IsTaken quote p.active (children order [])) a _
            (sort_by_key-All _ _ (snapshots-IsTaken quote p.active _ (ready_keys cutoff p))) m in
        cc (rw e at f, IsNamed-claimed order p.active v n k h),
    λ h. elim (Bool-cases (is_claimed (children order []) k)) [
      | inl t ↦ absurd (h (claimed-IsNamed order p.active v n k t))
      | inr f ↦
          let (a, e) = assembled quote p.active k d in
          (
            a,
            sort_by_key-Elem a _
                (snapshots-Elem quote p.active (children order []) (ready_keys cutoff p) k a r f e),
            own_key quote p.active k a e,
          )
    ],
  )
