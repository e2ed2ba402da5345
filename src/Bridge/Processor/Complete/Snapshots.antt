-- ===== src/Bridge/Processor/Complete/Snapshots.antt =====
-- Every key with signals is consumed by a snapshot of a flush.
use mathlib.Core.Path.{subst}
use mathlib.Core.Option.{some-injective, none-ne-some}
use evidra_agentgateway_brid.Prelude.{
  String, ◌≡◌, refl, sym, ◌∙◌, true, false, some, List, [], ◌∷◌, ◌⊎◌, inl, inr, Elem, Bool-cases,
  Option-cases,
}
use evidra_agentgateway_brid.Prelude.Int.{pos, is_zero}
use evidra_agentgateway_brid.Text.Order.{str_leb}
use evidra_agentgateway_brid.Text.Sort.{sort_strings-Elem}
use evidra_agentgateway_brid.Dict.{Dict, get, has, keys, Elem-of_has}
use evidra_agentgateway_brid.Observation.{Time, Execution}
use evidra_agentgateway_brid.Bridge.State.{Buffers, Processor}
use evidra_agentgateway_brid.Bridge.Assembly.{
  AssembledExecution, ready_from, ready_keys, names_parent, parent_key, merge_parent, assemble_log,
  assemble_span, assemble_key, snapshots, insert_by_key, sort_by_key, children, is_claimed,
}
use evidra_agentgateway_brid.Bridge.Processor.{assemble_out}
use evidra_agentgateway_brid.Bridge.Processor.Interleaving.Held.{has-some}
use evidra_agentgateway_brid.Bridge.Processor.Interleaving.Ownership.{assemble_key-Owns}
use evidra_agentgateway_brid.Bridge.Processor.Interleaving.Coherent.{
  Visits, own_key, children-Named,
}
use evidra_agentgateway_brid.Bridge.Processor.Interleaving.Sound.{IsSound, has_data}

-- The key is not buffered in the active generation.
abbrev pub IsCleared : Processor → String → Type 0
IsCleared p k = has k p.active.first_seen ≡ false

ready_from_zero :
    (key : String) (d : Dict Time) → Elem key (keys d) → Elem key (ready_from (pos 0) d)
unfolding ready_from is_zero
ready_from_zero key [] m = m
ready_from_zero key ((j, seen) ∷ rest) (inl e) = inl e
ready_from_zero key ((j, seen) ∷ rest) (inr m) = inr (ready_from_zero key rest m)

-- A zero cutoff makes every key ready.
flush_ready :
    (key : String) (p : Processor)
    → has key p.active.first_seen ≡ true
    → Elem key (ready_keys (pos 0) p)
unfolding ready_keys
flush_ready key p h =
    sort_strings-Elem key (ready_from (pos 0) p.active.first_seen)
      (ready_from_zero key p.active.first_seen (Elem-of_has key p.active.first_seen h))

pub nothing_ready : (k : String) (p : Processor) → ready_keys (pos 0) p ≡ [] → IsCleared p k
nothing_ready k p e = elim (Bool-cases (has k p.active.first_seen)) [
  | inl t ↦ absurd (subst (Elem k) e (flush_ready k p t))
  | inr f ↦ f
]

insert_by_key-Elem :
    (a b : AssembledExecution) (l : List AssembledExecution)
    → (a ≡ b) ⊎ Elem a l
    → Elem a (insert_by_key b l)
unfolding insert_by_key
insert_by_key-Elem a b [] m = m
insert_by_key-Elem a b (c ∷ l) m = elim (Bool-cases (str_leb b.key c.key)) [
  | inl e ↦ rw e m
  | inr e ↦ rw e (elim m [
    | inl p ↦ inr (insert_by_key-Elem a b l (inl p))
    | inr (inl q) ↦ inl q
    | inr (inr n) ↦ inr (insert_by_key-Elem a b l (inr n))
  ])
]

pub sort_by_key-Elem :
    (a : AssembledExecution) (l : List AssembledExecution) → Elem a l → Elem a (sort_by_key l)
unfolding sort_by_key
sort_by_key-Elem a [] m = m
sort_by_key-Elem a (b ∷ l) (inl e) = insert_by_key-Elem a b (sort_by_key l) (inl e)
sort_by_key-Elem a (b ∷ l) (inr m) =
    insert_by_key-Elem a b (sort_by_key l) (inr (sort_by_key-Elem a l m))

module _ (quote : String → String) (b : Buffers) where
  pub snapshots-Elem :
      (child_of : Dict String) (keys : List String) (key : String) (a : AssembledExecution)
      → Elem key keys
      → is_claimed child_of key ≡ false
      → assemble_key quote b key ≡ some a
      → Elem a (snapshots quote b child_of keys)
  unfolding snapshots
  snapshots-Elem child_of [] key a m f s = absurd m
  snapshots-Elem child_of (j ∷ rest) key a (inl e) f s = rw (← e, f, s) (inl refl)
  snapshots-Elem child_of (j ∷ rest) key a (inr m) f s =
      let n = snapshots-Elem child_of rest key a m f s in
      elim (Bool-cases (is_claimed child_of j)) [
        | inl e ↦ rw e n
        | inr e ↦ elim (Option-cases (assemble_key quote b j)) [
          | inl x ↦ rw (e, x) n
          | inr (c, x) ↦ rw (e, x) (inr n)
        ]
      ]

  pub assembled :
      (key : String)
      → has_data key b ≡ true
      → (a : AssembledExecution) × (assemble_key quote b key ≡ some a)
  unfolding assemble_key assemble_log has
  assembled key h = elim (Option-cases (assemble_key quote b key)) [
    | inr (a, e) ↦ (a, e)
    | inl x ↦ elim (Option-cases (get key b.spans)) [
      | inl n ↦ elim (Option-cases (get key b.logs)) [
        | inl l ↦ absurd (cc (rw (n, l, has) at h))
        | inr (log, l) ↦ absurd (none-ne-some _ (sym (rw (n, l, assemble_key) at x)))
      ]
      | inr (sp, g) ↦ absurd (none-ne-some _ (sym (rw (g, assemble_key) at x)))
    ]
  ]

  -- A key with signals has a snapshot that consumes it.
  assemble_key-some :
      (key : String)
      → has_data key b ≡ true
      → (a : AssembledExecution) × (assemble_key quote b key ≡ some a) × Elem key a.consumed_keys
  assemble_key-some key h =
      let (a, e) = assembled key h in
      (
        a,
        e,
        subst (λ z. Elem z a.consumed_keys) (own_key quote b key a e)
            (assemble_key-Owns quote b key a e),
      )

  -- A client span's snapshot consumes its parent where that has signals.
  assemble_key-parent :
      (key : String) (sp : Execution)
      → get key b.spans ≡ some sp
      → names_parent sp ≡ true
      → has_data (parent_key sp) b ≡ true
      → (a : AssembledExecution) × (assemble_key quote b key ≡ some a)
        × Elem (parent_key sp) a.consumed_keys
  unfolding assemble_key assemble_span merge_parent
  assemble_key-parent key sp g n h =
      let (a, e) = assembled key (rw (has-some key sp b.spans g) refl) in
      let m : Elem (parent_key sp) (assemble_span quote b key sp (has key b.logs)).consumed_keys =
        rw (n, h) (inr (inl refl)) in
      (
        a,
        e,
        subst (λ z. Elem (parent_key sp) z.consumed_keys)
            (some-injective _ _ (rw (g, assemble_key) at e)) m,
      )

-- No key that claims another is claimed itself.
abbrev pub HasNoChain : List (String × Execution) → Type 0
HasNoChain order =
    (key : String) (c : String)
    → get key (children order []) ≡ some c
    → is_claimed (children order []) c ≡ false

module _ (quote : String → String) (order : List (String × Execution)) (p : Processor) where
  -- Every key with signals is consumed by a snapshot of the flush.
  pub flush_takes :
      (k : String)
      → ((j : String) → IsSound j p)
      → Visits order p.active.spans
      → HasNoChain order
      → has k p.active.first_seen ≡ true
      → (a : AssembledExecution) × Elem a (assemble_out quote (pos 0) order p)
        × Elem k a.consumed_keys
  unfolding assemble_out is_claimed get
  flush_takes k s v nc h =
      let d : has_data k p.active ≡ true = (sym (s k).active_whole) ∙ h in
      elim (Bool-cases (is_claimed (children order []) k)) [
        | inr f ↦
            let (a, e, m) = assemble_key-some quote p.active k d in
            (
              a,
              sort_by_key-Elem a _
                  (snapshots-Elem quote p.active (children order []) _ k a (flush_ready k p h) f e),
              m,
            )
        | inl t ↦ elim (Option-cases (get k (children order []))) [
          | inl n ↦ absurd (cc (rw (n, is_claimed) at t))
          | inr (c, g) ↦ elim (children-Named order [] k c g) [
            | inl (sp, m, n, q) ↦
                let i : get c p.active.spans ≡ some sp = (v c sp).1 m in
                let r : has c p.active.first_seen ≡ true =
                  (s c).active_whole ∙ (rw (has-some c sp p.active.spans i) refl) in
                let (a, e, w) = assemble_key-parent quote p.active c sp i n (rw q d) in
                (
                  a,
                  sort_by_key-Elem a _ (
                      snapshots-Elem quote p.active (children order []) _ c a (flush_ready c p r)
                        (nc k c g) e),
                  rw (← q) w,
                )
            | inr x ↦ absurd (none-ne-some c x)
          ]
        ]
      ]
