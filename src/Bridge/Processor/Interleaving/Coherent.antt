-- ===== src/Bridge/Processor/Interleaving/Coherent.antt =====
-- The snapshots of one assembly: where one consumes the key of another, it consumes all that the other
-- consumes.
use mathlib.Core.Path.{subst}
use mathlib.Core.Option.{some-injective, none-ne-some}
use evidra_agentgateway_brid.Prelude.{
  String, ◌≡◌, refl, sym, ap, ◌∙◌, Bool, true, false, ◌||◌, List, [], ◌∷◌, arith, ◌⊎◌, ◌↔◌, inl,
  inr, Elem, All, Distinct, Bool-cases, Option-cases, some, eq_iff, text_cases,
}
use evidra_agentgateway_brid.Dict.{Dict, get, has, get-put, keys, get-Elem, Elem-get}
use evidra_agentgateway_brid.Observation.{Time, Execution}
use evidra_agentgateway_brid.Bridge.State.{Buffers, Processor}
use evidra_agentgateway_brid.Bridge.Assembly.{
  AssembledExecution, names_parent, parent_key, merge_parent, assemble_log, assemble_span,
  assemble_key, snapshots, children, is_claimed,
}
use evidra_agentgateway_brid.Bridge.Processor.{assemble_out}
use evidra_agentgateway_brid.Bridge.Processor.Interleaving.Ownership.{sort_by_key-All}
use evidra_agentgateway_brid.Bridge.Processor.Interleaving.Reserved.{Elem-snoc}

-- The range over a map visits exactly its entries, in some order.
abbrev pub Visits : List (String × Execution) → Dict Execution → Type 0
Visits order spans = (k : String) (sp : Execution) → (get k spans ≡ some sp) ↔ Elem ((k, sp)) order

-- A map with no key twice is such a visit of itself.
pub Visits-self : (spans : Dict Execution) → Distinct (keys spans) → Visits spans spans
Visits-self spans u k sp = (get-Elem spans k sp, Elem-get spans k sp u)

-- What `b` consumes is consumed by `a`, if `a` consumes the key of `b`.
abbrev pub Covers : AssembledExecution → AssembledExecution → Type 0
Covers a b =
    Elem b.key a.consumed_keys → (k : String) → Elem k b.consumed_keys → Elem k a.consumed_keys

-- A key that is claimed has a span that names it.
abbrev pub Named : List (String × Execution) → String → String → Type 0
Named order parent c =
    (sp : Execution) × Elem ((c, sp)) order × (names_parent sp ≡ true) × (parent_key sp ≡ parent)

children-claimed :
    (order : List (String × Execution)) (child_of : Dict String) (parent c : String)
    → get parent child_of ≡ some c
    → (c' : String) × (get parent (children order child_of) ≡ some c')
unfolding children
children-claimed [] child_of parent c e = (c, e)
children-claimed ((key, span) ∷ rest) child_of parent c e = elim (Bool-cases (names_parent span)) [
  | inl n ↦ rw n (elim (text_cases (parent_key span) parent) [
    | inl (t, q) ↦ children-claimed rest _ parent key (rw (get-put, t) refl)
    | inr (t, q) ↦ children-claimed rest _ parent c (rw (get-put, t) e)
  ])
  | inr n ↦ rw n (children-claimed rest child_of parent c e)
]

pub children-named :
    (order : List (String × Execution)) (child_of : Dict String) (key : String) (span : Execution)
    → Elem ((key, span)) order
    → names_parent span ≡ true
    → (c : String) × (get (parent_key span) (children order child_of) ≡ some c)
unfolding children
children-named [] child_of key span m n = absurd m
children-named ((key', span') ∷ rest) child_of key span (inl e) n =
    let s : span ≡ span' = ap (λ z. z.1) e in
    rw (← s, n)
      (children-claimed rest _ (parent_key span) key'
        (rw (get-put) (ground (arith, eq_iff (parent_key span) (parent_key span)))))
children-named ((key', span') ∷ rest) child_of key span (inr m) n =
    children-named rest _ key span m n

pub children-Named :
    (order : List (String × Execution)) (child_of : Dict String) (parent c : String)
    → get parent (children order child_of) ≡ some c
    → Named order parent c ⊎ (get parent child_of ≡ some c)
unfolding children Named
children-Named [] child_of parent c e = inr e
children-Named ((key, span) ∷ rest) child_of parent c e = elim (children-Named rest _ parent c e) [
  | inl (sp, m, n, q) ↦ inl (sp, inr m, n, q)
  | inr g ↦ elim (Bool-cases (names_parent span)) [
    | inl n ↦ elim (text_cases (parent_key span) parent) [
      | inl (t, q) ↦
          let i : some key ≡ some c = rw (n, get-put, t) at g in
          inl (span, inl (ap (λ z. ((z, span))) (sym (some-injective _ _ i))), n, q)
      | inr (t, q) ↦ inr (rw (n, get-put, t) at g)
    ]
    | inr n ↦ inr (rw n at g)
  ]
]

-- What a snapshot consumes: its own key, and the one that its span names as its parent.
Consumed : Buffers → String → String → Type 0
Consumed b key k =
    (k ≡ key)
    ⊎ ((sp : Execution) × (get key b.spans ≡ some sp)
        × (names_parent sp ≡ true)
        × (k ≡ parent_key sp))

module _ (quote : String → String) (b : Buffers) where
  -- The snapshot is that of its key, and consumes what is said above.
  Describes : AssembledExecution → Type 0
  Describes a =
      (assemble_key quote b a.key ≡ some a)
      × ((k : String) → Elem k a.consumed_keys → Consumed b a.key k)

  only_own : (key k : String) → Elem k (key ∷ []) → Consumed b key k
  unfolding Consumed
  only_own key k (inl e) = inl e
  only_own key k (inr m) = absurd m

  parent-Consumed :
      (key : String) (sp : Execution) (a : AssembledExecution) (k : String)
      → get key b.spans ≡ some sp
      → names_parent sp ≡ true
      → a.consumed_keys ≡ key ∷ []
      → Elem k (merge_parent quote b (parent_key sp) a).consumed_keys
      → Consumed b key k
  unfolding merge_parent Consumed
  parent-Consumed key sp a k g n c m =
      elim (Bool-cases (has (parent_key sp) b.spans || has (parent_key sp) b.logs)) [
        | inl e ↦ elim (Elem-snoc k (parent_key sp) a.consumed_keys (rw e at m)) [
          | inl i ↦ only_own key k (rw c at i)
          | inr p ↦ inr (sp, g, n, p)
        ]
        | inr e ↦ only_own key k (rw (e, c) at m)
      ]

  span-Consumed :
      (key : String) (sp : Execution) (both : Bool) (k : String)
      → get key b.spans ≡ some sp
      → Elem k (assemble_span quote b key sp both).consumed_keys
      → Consumed b key k
  unfolding assemble_span
  span-Consumed key sp both k g m =
      let a : AssembledExecution = record {
        key = key;
        consumed_keys = key ∷ [];
        ex = sp;
        both = both;
        loggy = false;
        parents_suppressed = 0;
      } in
      elim (Bool-cases (names_parent sp)) [
        | inl n ↦ parent-Consumed key sp a k g n refl (rw n at m)
        | inr n ↦ only_own key k (rw n at m)
      ]

  pub own_key :
      (key : String) (a : AssembledExecution) → assemble_key quote b key ≡ some a → a.key ≡ key
  unfolding assemble_key assemble_log assemble_span merge_parent
  own_key key a e = ground arith

  Consumed-of :
      (key : String) (a : AssembledExecution) (k : String)
      → assemble_key quote b key ≡ some a
      → Elem k a.consumed_keys
      → Consumed b key k
  unfolding assemble_key assemble_log
  Consumed-of key a k e m = elim (Option-cases (get key b.spans)) [
    | inl n ↦ elim (Option-cases (get key b.logs)) [
      | inl l ↦ absurd (none-ne-some a (rw (n, l, assemble_key) at e))
      | inr (log, l) ↦ only_own key k (
          subst (λ z. Elem k z.consumed_keys)
            (sym (some-injective _ _ (rw (n, l, assemble_key) at e))) m)
    ]
    | inr (sp, g) ↦ span-Consumed key sp (has key b.logs) k g (
        subst (λ z. Elem k z.consumed_keys) (sym (some-injective _ _ (rw (g, assemble_key) at e)))
          m)
  ]

  -- A snapshot of an assembly: that of its key, which no other span claims.
  abbrev pub IsTaken : Dict String → AssembledExecution → Type 0
  IsTaken child_of a = (assemble_key quote b a.key ≡ some a) × (is_claimed child_of a.key ≡ false)

  pub snapshots-IsTaken :
      (child_of : Dict String) (keys : List String)
      → All (IsTaken child_of) (snapshots quote b child_of keys)
  unfolding snapshots
  snapshots-IsTaken child_of [] = tt
  snapshots-IsTaken child_of (key ∷ rest) = elim (Bool-cases (is_claimed child_of key)) [
    | inl e ↦ rw e (snapshots-IsTaken child_of rest)
    | inr e ↦ elim (Option-cases (assemble_key quote b key)) [
      | inl n ↦ rw (e, n) (snapshots-IsTaken child_of rest)
      | inr (a, s) ↦
          rw (e, s)
            (
              (
                subst (λ z. assemble_key quote b z ≡ some a) (sym (own_key key a s)) s,
                subst (λ z. is_claimed child_of z ≡ false) (sym (own_key key a s)) e,
              ),
              snapshots-IsTaken child_of rest,
            )
    ]
  ]

  -- A key that is named as a parent and not claimed by another span names itself.
  names_itself :
      (order : List (String × Execution)) (key : String) (sp : Execution)
      → Visits order b.spans
      → get key b.spans ≡ some sp
      → names_parent sp ≡ true
      → is_claimed (children order []) (parent_key sp) ≡ false
      → (self : Execution) × (get (parent_key sp) b.spans ≡ some self)
        × (parent_key self ≡ parent_key sp)
  unfolding is_claimed Named get
  names_itself order key sp v g n f =
      let (c, e) = children-named order [] key sp ((v key sp).0 g) n in
      elim (children-Named order [] (parent_key sp) c e) [
        | inl (self, m, n', q) ↦
            let same : c ≡ parent_key sp = ground (arith, eq_iff c (parent_key sp)) in
            (self, (v (parent_key sp) self).1 (rw (← same) m), q)
        | inr x ↦ absurd (none-ne-some c x)
      ]

  taken-Covers :
      (order : List (String × Execution)) (a a' : AssembledExecution)
      → Visits order b.spans
      → IsTaken (children order []) a
      → IsTaken (children order []) a'
      → Covers a a'
  unfolding Consumed
  taken-Covers order a a' v (s, f) (s', f') m k n = elim (Consumed-of a.key a a'.key s m) [
    | inl e ↦
        let same : a' ≡ a = some-injective _ _ (sym s' ∙ (ap (assemble_key quote b) e ∙ s)) in
        subst (λ z. Elem k z.consumed_keys) same n
    | inr (sp, g, p, e) ↦
        let (self, h, q) = names_itself order a.key sp v g p (rw (← e) f') in
        elim (Consumed-of a'.key a' k s' n) [
          | inl i ↦ rw i m
          | inr (sp', g', p', e') ↦
              let i : sp' ≡ self = some-injective _ _ (sym g' ∙ (ap (λ z. get z b.spans) e ∙ h)) in
              subst (λ z. Elem z a.consumed_keys) (sym (e' ∙ (ap parent_key i ∙ (q ∙ sym e)))) m
        ]
  ]

pub Elem_All :
    (P : AssembledExecution → Type 0) (a : AssembledExecution) (l : List AssembledExecution)
    → All P l
    → Elem a l
    → P a
Elem_All P a [] h m = absurd m
Elem_All P a (b ∷ l) h (inl e) = subst P (sym e) h.0
Elem_All P a (b ∷ l) h (inr m) = Elem_All P a l h.1 m

-- Any two of them.
abbrev pub IsCoherent : List AssembledExecution → Type 0
IsCoherent l = (a b : AssembledExecution) → Elem a l → Elem b l → Covers a b

pub assemble_out-IsCoherent :
    (quote : String → String) (cutoff : Time) (order : List (String × Execution)) (p : Processor)
    → Visits order p.active.spans
    → IsCoherent (assemble_out quote cutoff order p)
unfolding assemble_out
assemble_out-IsCoherent quote cutoff order p v a b m n =
    let h =
      sort_by_key-All (IsTaken quote p.active (children order [])) _
        (snapshots-IsTaken quote p.active _ _) in
    taken-Covers quote p.active order a b v (Elem_All _ a _ h m) (Elem_All _ b _ h n)
