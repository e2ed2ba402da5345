-- ===== src/Bridge/Processor/Interleaving/Keyed.antt =====
-- A written record is known by its execution: its key is the join key of the execution, and besides it
-- consumes at most the parent that the execution names.
use mathlib.Core.Path.{subst}
use mathlib.Core.Option.{some-injective}
use evidra_agentgateway_brid.Prelude.{
  String, ◌≡◌, ◌≢◌, refl, sym, ap, ◌∙◌, arith, true, Bool, ◌||◌, ◌⊎◌, inl, inr, Option, none, some,
  List, [], ◌∷◌, All, Bool-cases, Option-cases, eq_iff,
}
use evidra_agentgateway_brid.Prelude.Int.{ℤ}
use evidra_agentgateway_brid.Text.{trim_space, trim_left, trim_right}
use evidra_agentgateway_brid.Dict.{Dict, get, has, get-Values}
use evidra_agentgateway_brid.Observation.{Time, Execution, join_key}
use evidra_agentgateway_brid.Bridge.Merge.{merge, or_else}
use evidra_agentgateway_brid.Bridge.State.{Buffers, Processor, span_kind_client}
use evidra_agentgateway_brid.Bridge.Assembly.{
  AssembledExecution, names_parent, parent_key, merge_found, merge_parent, assemble_log,
  assemble_span, assemble_key, snapshots, is_claimed,
}
use evidra_agentgateway_brid.Bridge.Processor.{assemble_out}
use evidra_agentgateway_brid.Bridge.Processor.Interleaving.{World, Reach}
use evidra_agentgateway_brid.Bridge.Processor.Interleaving.Keeps.{BuffersHold, Holds}
use evidra_agentgateway_brid.Bridge.Processor.Interleaving.Ownership.{sort_by_key-All}
use evidra_agentgateway_brid.Bridge.Processor.Interleaving.Everywhere.{written_everywhere}
use evidra_agentgateway_brid.Bridge.Processor.Interleaving.Once.{start}

-- The execution is that of the key.
abbrev IsUnder : String → Execution → Type 0
IsUnder k ex = (join_key ex.trace_id ex.span_id ≡ k) × (k ≢ "")

-- What a record consumes, by its execution: its own key, and perhaps the parent that its span names.
abbrev pub IsKeyed : AssembledExecution → Type 0
IsKeyed a =
    (a.key ≡ join_key a.ex.trace_id a.ex.span_id)
    × ((a.consumed_keys ≡ a.key ∷ [])
        ⊎ ((names_parent a.ex ≡ true) × (a.consumed_keys ≡ a.key ∷ parent_key a.ex ∷ [])))

-- The execution names this parent.
abbrev Names : String → Execution → Type 0
Names parent ex = (names_parent ex ≡ true) × (ex.trace_id ≢ "") × (parent_key ex ≡ parent)

key_ids : (t s : String) → join_key t s ≢ "" → (t ≢ "") × (s ≢ "")
unfolding join_key trim_space trim_left trim_right
key_ids t s n = (λ e. n (rw (e, join_key) refl), λ e. n (rw (e, join_key) (ground arith)))

or_else_first : (a b : String) → a ≢ "" → or_else a b ≡ a
unfolding or_else
or_else_first a b n = ground (arith, eq_iff a "")

module _ (quote : String → String) where
  merge-ids :
      (a b : Execution)
      → ((merge quote a b).trace_id ≡ or_else a.trace_id b.trace_id)
        × ((merge quote a b).span_id ≡ or_else a.span_id b.span_id)
        × ((merge quote a b).parent_span_id ≡ or_else a.parent_span_id b.parent_span_id)
        × ((merge quote a b).span_kind ≡ or_else a.span_kind b.span_kind)
  unfolding merge
  merge-ids a b = (refl, refl, refl, refl)

  -- The ids of an execution that has a key survive merging.
  merge-IsUnder : (k : String) (a b : Execution) → IsUnder k a → IsUnder k (merge quote a b)
  merge-IsUnder k a b (e, n) =
      let (t, s, p, c) = merge-ids a b in
      let (x, y) = key_ids a.trace_id a.span_id (λ z. n (sym e ∙ z)) in
      (rw (t, s, or_else_first a.trace_id b.trace_id x, or_else_first a.span_id b.span_id y) e, n)

  merge-Names :
      (parent : String) (a b : Execution) → Names parent a → Names parent (merge quote a b)
  unfolding names_parent parent_key
  merge-Names parent a b (h, x, e) =
      let (t, s, p, c) = merge-ids a b in
      let kind : a.span_kind ≡ span_kind_client =
        ground (arith, eq_iff a.span_kind span_kind_client) in
      let named : a.parent_span_id ≢ "" = (λ z. cc (rw z at h)) in
      let t' = t ∙ or_else_first a.trace_id b.trace_id x in
      let p' = p ∙ or_else_first a.parent_span_id b.parent_span_id named in
      let c' = c ∙ or_else_first a.span_kind b.span_kind (λ z. cc (sym kind ∙ z)) in
      (rw (p', c') h, rw t' x, rw (t', p') e)

  found_keeps :
      (P : Execution → Type 0) (ex : Execution) (o : Option Execution)
      → ((a b : Execution) → P a → P (merge quote a b))
      → P ex
      → P (merge_found quote ex o)
  unfolding merge_found
  found_keeps P ex none f h = h
  found_keeps P ex (some other) f h = f ex other h

  -- Both facts on the execution of a snapshot, made from a span that has them.
  span-keeps :
      (P : Execution → Type 0) (b : Buffers) (key : String) (span : Execution) (both : Bool)
      → ((a c : Execution) → P a → P (merge quote a c))
      → P span
      → P (assemble_span quote b key span both).ex
  unfolding assemble_span merge_parent
  span-keeps P b key span both f h = elim (Bool-cases (names_parent span)) [
    | inl e ↦ rw e (found_keeps P _ _ f (found_keeps P span _ f h))
    | inr e ↦ rw e h
  ]

  span_consumes :
      (b : Buffers) (key : String) (span : Execution) (both : Bool)
      → (assemble_span quote b key span both).key ≡ key
        × (((assemble_span quote b key span both).consumed_keys ≡ key ∷ [])
            ⊎ ((names_parent span ≡ true)
                × ((assemble_span quote b key span both).consumed_keys
                    ≡ key ∷ parent_key span ∷ [])))
  unfolding assemble_span merge_parent
  span_consumes b key span both = elim (Bool-cases (names_parent span)) [
    | inr e ↦ rw e (refl, inl refl)
    | inl e ↦ elim (Bool-cases (has (parent_key span) b.spans || has (parent_key span) b.logs)) [
      | inl h ↦ rw (e, h) (refl, inr (refl, refl))
      | inr h ↦ rw (e, h) (refl, inl refl)
    ]
  ]

  assemble_key-IsKeyed :
      (b : Buffers) (key : String) (a : AssembledExecution)
      → BuffersHold IsUnder b
      → assemble_key quote b key ≡ some a
      → IsKeyed a
  unfolding assemble_key assemble_log
  assemble_key-IsKeyed b key a h e = elim (Option-cases (get key b.spans)) [
    | inl n ↦ elim (Option-cases (get key b.logs)) [
      | inl m ↦ absurd (cc (rw (n, m, assemble_key) at e))
      | inr (log, m) ↦
          subst IsKeyed (some-injective _ _ (rw (n, m, assemble_key) at e))
            (sym (get-Values IsUnder key b.logs log h.1 m).0, inl refl)
    ]
    | inr (span, m) ↦
        let under = get-Values IsUnder key b.spans span h.0 m in
        let both = has key b.logs in
        let log = get key b.logs in
        let ids =
          found_keeps (IsUnder key) _ log (merge-IsUnder key)
            (span-keeps (IsUnder key) b key span both (merge-IsUnder key) under) in
        let (k, c) = span_consumes b key span both in
        subst IsKeyed (some-injective _ _ (rw (m, assemble_key) at e)) (
          k ∙ sym ids.0,
          elim c [
            | inl o ↦ inl (o ∙ ap (λ z. z ∷ []) (sym k))
            | inr (n, o) ↦
                let (x, y) = key_ids span.trace_id span.span_id (λ z. under.1 (sym under.0 ∙ z)) in
                let named =
                  found_keeps (Names (parent_key span)) _ log (merge-Names (parent_key span)) (
                    span-keeps (Names (parent_key span)) b key span both
                      (merge-Names (parent_key span)) (n, x, refl)) in
                inr (named.0, o ∙ λ i. sym k i ∷ sym named.2 i ∷ [])
          ],
        )
  ]

  snapshots-IsKeyed :
      (b : Buffers) (child_of : Dict String) (keys : List String)
      → BuffersHold IsUnder b
      → All IsKeyed (snapshots quote b child_of keys)
  unfolding snapshots
  snapshots-IsKeyed b child_of [] h = tt
  snapshots-IsKeyed b child_of (key ∷ rest) h = elim (Bool-cases (is_claimed child_of key)) [
    | inl e ↦ rw e (snapshots-IsKeyed b child_of rest h)
    | inr e ↦ elim (Option-cases (assemble_key quote b key)) [
      | inl n ↦ rw (e, n) (snapshots-IsKeyed b child_of rest h)
      | inr (a, s) ↦
          rw (e, s) (assemble_key-IsKeyed b key a h s, snapshots-IsKeyed b child_of rest h)
    ]
  ]

  assemble_out-IsKeyed :
      (cutoff : Time) (order : List (String × Execution)) (p : Processor)
      → Holds IsUnder p
      → All IsKeyed (assemble_out quote cutoff order p)
  unfolding assemble_out
  assemble_out-IsKeyed cutoff order p h =
      sort_by_key-All IsKeyed _ (snapshots-IsKeyed p.active _ _ h.0)

  -- Whatever has happened, a written record is known by its execution.
  pub written-IsKeyed :
      (Admitted : Execution → Type 0) (max_wait : ℤ) (w : World)
      → Reach quote Admitted (start max_wait) w
      → All IsKeyed w.written
  written-IsKeyed Admitted max_wait w r =
      written_everywhere quote Admitted IsUnder IsKeyed (λ k j a b h m. merge-IsUnder k a b h)
        (λ k s a h. h) (λ ex h n. (refl, n)) assemble_out-IsKeyed max_wait w r
