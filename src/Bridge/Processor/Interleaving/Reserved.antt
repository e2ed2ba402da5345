-- ===== src/Bridge/Processor/Interleaving/Reserved.antt =====
-- What an assembly puts in flight: keys that have signals in the active generation.
use mathlib.Core.Path.{subst}
use mathlib.Core.Option.{some-injective}
use evidra_agentgateway_brid.Prelude.{
  String, ◌≡◌, refl, sym, Bool, true, false, ◌||◌, List, [], ◌∷◌, ◌++◌, arith, ◌⊎◌, inl, inr, Elem,
  All, Bool-cases, Option-cases, some, text_cases,
}
use evidra_agentgateway_brid.Dict.{Dict, get, put, has, flag, flag-put}
use evidra_agentgateway_brid.Observation.{Time, Execution}
use evidra_agentgateway_brid.Bridge.State.{Buffers, Processor}
use evidra_agentgateway_brid.Bridge.Assembly.{
  AssembledExecution, names_parent, parent_key, merge_parent, assemble_log, assemble_span,
  assemble_key, snapshots, is_claimed, set_all, reserve,
}
use evidra_agentgateway_brid.Bridge.Processor.{assemble_out, reserve_out}
use evidra_agentgateway_brid.Bridge.Processor.Interleaving.Ownership.{sort_by_key-All}
use evidra_agentgateway_brid.Bridge.Processor.Interleaving.Held.{has-some}
use evidra_agentgateway_brid.Bridge.Processor.Interleaving.Sound.{IsSound, has_data}

-- Every key that the snapshot consumes has a span or a log in the generation.
abbrev pub Consumes : Buffers → AssembledExecution → Type 0
Consumes b a = (k : String) → Elem k a.consumed_keys → has_data k b ≡ true

pub Elem-snoc : (k j : String) (l : List String) → Elem k (l ++ j ∷ []) → Elem k l ⊎ (k ≡ j)
Elem-snoc k j [] (inl e) = inr e
Elem-snoc k j [] (inr m) = absurd m
Elem-snoc k j (i ∷ l) (inl e) = inl (inl e)
Elem-snoc k j (i ∷ l) (inr m) = elim (Elem-snoc k j l m) [ inl n ↦ inl (inr n) | inr e ↦ inr e ]

module _ (quote : String → String) (b : Buffers) where
  merge_parent-Consumes :
      (parent : String) (a : AssembledExecution)
      → Consumes b a
      → Consumes b (merge_parent quote b parent a)
  unfolding merge_parent
  merge_parent-Consumes parent a h k m =
      elim (Bool-cases (has parent b.spans || has parent b.logs)) [
        | inl e ↦ elim (Elem-snoc k parent a.consumed_keys (rw e at m)) [
          | inl n ↦ h k n
          | inr p ↦ rw p e
        ]
        | inr e ↦ h k (rw e at m)
      ]

  only_key :
      (key : String)
      → has_data key b ≡ true
      → (k : String) → Elem k (key ∷ [])
      → has_data k b ≡ true
  only_key key h k (inl e) = rw e h
  only_key key h k (inr m) = absurd m

  assemble_span-Consumes :
      (key : String) (span : Execution) (both : Bool)
      → has_data key b ≡ true
      → Consumes b (assemble_span quote b key span both)
  unfolding assemble_span
  assemble_span-Consumes key span both h =
      let a : AssembledExecution = record {
        key = key;
        consumed_keys = key ∷ [];
        ex = span;
        both = both;
        loggy = false;
        parents_suppressed = 0;
      } in
      elim (Bool-cases (names_parent span)) [
        | inl e ↦ rw e (merge_parent-Consumes (parent_key span) a (only_key key h))
        | inr e ↦ rw e (only_key key h)
      ]

  assemble_key-Consumes :
      (key : String) (a : AssembledExecution) → assemble_key quote b key ≡ some a → Consumes b a
  unfolding assemble_key assemble_log
  assemble_key-Consumes key a e = elim (Option-cases (get key b.spans)) [
    | inl n ↦ elim (Option-cases (get key b.logs)) [
      | inl m ↦ ground arith
      | inr (log, m) ↦
          subst (Consumes b) (some-injective _ _ (rw (n, m, assemble_key) at e))
            (only_key key (rw (has-some key log b.logs m) (ground arith)))
    ]
    | inr (span, m) ↦
        subst (Consumes b) (some-injective _ _ (rw (m, assemble_key) at e))
          (assemble_span-Consumes key span (has key b.logs) (rw (has-some key span b.spans m) refl))
  ]

  snapshots-Consumes :
      (child_of : Dict String) (keys : List String)
      → All (Consumes b) (snapshots quote b child_of keys)
  unfolding snapshots
  snapshots-Consumes child_of [] = tt
  snapshots-Consumes child_of (key ∷ rest) = elim (Bool-cases (is_claimed child_of key)) [
    | inl e ↦ rw e (snapshots-Consumes child_of rest)
    | inr e ↦ elim (Option-cases (assemble_key quote b key)) [
      | inl n ↦ rw (e, n) (snapshots-Consumes child_of rest)
      | inr (a, s) ↦ rw (e, s) (assemble_key-Consumes key a s, snapshots-Consumes child_of rest)
    ]
  ]

pub assemble_out-Consumes :
    (quote : String → String) (cutoff : Time) (order : List (String × Execution)) (p : Processor)
    → All (Consumes p.active) (assemble_out quote cutoff order p)
unfolding assemble_out
assemble_out-Consumes quote cutoff order p =
    sort_by_key-All (Consumes p.active) _ (snapshots-Consumes quote p.active _ _)

-- What is in flight after keys are set: what was, and what they say.
pub flag-set_all :
    (keys : List String) (k : String) (d : Dict Bool)
    → (flag k (set_all keys d) ≡ true → Elem k keys ⊎ (flag k d ≡ true))
      × (flag k d ≡ true → flag k (set_all keys d) ≡ true)
unfolding set_all
flag-set_all [] k d = (λ h. inr h, λ h. h)
flag-set_all (key ∷ rest) k d =
    let (f, g) = flag-set_all rest k (put key true d) in
    (
      λ h. elim (f h) [
        | inl m ↦ inl (inr m)
        | inr i ↦ elim (text_cases key k) [
          | inl (t, e) ↦ inl (inl (sym e))
          | inr (t, n) ↦ inr (rw (flag-put, t) at i)
        ]
      ],
      λ h. g (ground (arith, flag-put key k true d)),
    )

flag-reserve :
    (b : Buffers) (out : List AssembledExecution) (k : String) (d : Dict Bool)
    → All (Consumes b) out
    → (flag k (reserve out d) ≡ true → (has_data k b ≡ true) ⊎ (flag k d ≡ true))
      × (flag k d ≡ true → flag k (reserve out d) ≡ true)
unfolding reserve
flag-reserve b [] k d c = (λ h. inr h, λ h. h)
flag-reserve b (a ∷ rest) k d c =
    let (f, g) = flag-reserve b rest k (set_all a.consumed_keys d) c.1 in
    let (i, j) = flag-set_all a.consumed_keys k d in
    (
      λ h. elim (f h) [
        | inl m ↦ inl m
        | inr s ↦ elim (i s) [ inl m ↦ inl (c.0 k m) | inr t ↦ inr t ]
      ],
      λ h. g (j h),
    )

-- Reserving the snapshots of an assembly keeps the processor sound.
pub reserve_out-IsSound :
    (quote : String → String) (cutoff : Time) (order : List (String × Execution)) (k : String)
    (p : Processor)
    → IsSound k p
    → IsSound k (reserve_out (assemble_out quote cutoff order p) p)
unfolding reserve_out
reserve_out-IsSound quote cutoff order k p h =
    let out = assemble_out quote cutoff order p in
    let (f, g) =
      flag-reserve p.active out k p.in_flight (assemble_out-Consumes quote cutoff order p) in
    record {
      active_whole = h.active_whole;
      pending_whole = h.pending_whole;
      emitted_gone = elim (Bool-cases (flag k (reserve out p.in_flight))) [
        | inl e ↦ elim (f e) [ inl m ↦ ground arith | inr m ↦ ground arith ]
        | inr e ↦ ground arith
      ];
      pending_in_flight = elim (Bool-cases (flag k p.in_flight)) [
        | inl e ↦ rw (g e) (ground arith)
        | inr e ↦ ground arith
      ];
    }
