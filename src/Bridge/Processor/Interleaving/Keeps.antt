-- ===== src/Bridge/Processor/Interleaving/Keeps.antt =====
-- Buffering, assembly, acknowledgement and rollback keep what every signal that is received satisfies,
-- if merging keeps it.
use mathlib.Core.Option.{some-injective}
use mathlib.Core.Path.{subst}
use evidra_agentgateway_brid.Prelude.{
  String, ◌≡◌, Bool, ◌||◌, some, List, [], ◌∷◌, ◌==◌, inl, inr, All, Bool-cases, Option-cases,
  text_cases, ◌≢◌, sym,
}
use evidra_agentgateway_brid.Dict.{Dict, get, flag, Values, put-Values, delete-Values, get-Values}
use evidra_agentgateway_brid.Observation.{Time, Execution, Source, join_key}
use evidra_agentgateway_brid.Bridge.Merge.{merge, member}
use evidra_agentgateway_brid.Bridge.State.{
  Buffers, Processor, stamp, merge_into, store, buffer_key, buffer, signal_logs, has_pending,
}
use evidra_agentgateway_brid.Bridge.Assembly.{
  AssembledExecution, assemble_span, assemble_key, snapshots, is_claimed, merge_found, names_parent,
  acknowledge_key, acknowledge_keys, acknowledge, fold_back, merge_pending_into_active, restore_key,
  restore_keys, restore_from, restore_reserved,
}
use evidra_agentgateway_brid.Bridge.Processor.{assemble_out}
use evidra_agentgateway_brid.Bridge.Processor.Interleaving.Ownership.{sort_by_key-All}
use evidra_agentgateway_brid.Bridge.Processor.Interleaving.Coherent.{own_key}

-- Both generations of buffered signals satisfy the property.
abbrev pub BuffersHold : (String → Execution → Type 0) → Buffers → Type 0
BuffersHold P b = Values P b.spans × Values P b.logs

abbrev pub Holds : (String → Execution → Type 0) → Processor → Type 0
Holds P p = BuffersHold P p.active × BuffersHold P p.pending

abbrev pub SnapshotsHold : (String → Execution → Type 0) → List AssembledExecution → Type 0
SnapshotsHold P l = All (λ a. P a.key a.ex) l

module _ (quote : String → String) (P : String → Execution → Type 0)
    (merged : (k j : String) (a b : Execution) → P k a → P j b → P k (merge quote a b))
    (stamped : (k : String) (s : Source) (a : Execution)
      → P k a
      → P k (record a { source = s })) where
  merge_into-Values :
      (key : String) (ex : Execution) (d : Dict Execution)
      → P key ex
      → Values P d
      → Values P (merge_into quote key ex d)
  unfolding merge_into
  merge_into-Values key ex d p h = elim (Option-cases (get key d)) [
    | inl n ↦ rw n (put-Values P key ex d p h)
    | inr (prev, e) ↦
        rw e (put-Values P key _ d (merged key key prev ex (get-Values P key d prev h e) p) h)
  ]

  store-BuffersHold :
      (key : String) (ex : Execution) (signal : String) (now : Time) (b : Buffers)
      → P key ex
      → BuffersHold P b
      → BuffersHold P (store quote key ex signal now b)
  unfolding store
  store-BuffersHold key ex signal now b p h = elim (Bool-cases (signal == signal_logs)) [
    | inl e ↦ rw e (h.0, merge_into-Values key ex b.logs p h.1)
    | inr e ↦ rw e (merge_into-Values key ex b.spans p h.0, h.1)
  ]

  stamp-keeps : (k : String) (p : Processor) (ex : Execution) → P k ex → P k (stamp p ex)
  unfolding stamp
  stamp-keeps k p ex h = elim (Bool-cases (p.observer_id == "")) [
    | inl e ↦ rw e h
    | inr e ↦ rw e (stamped k _ ex h)
  ]

  buffer_key-Holds :
      (key : String) (ex : Execution) (signal : String) (now : Time) (p : Processor)
      → P key ex
      → Holds P p
      → Holds P (buffer_key quote key ex signal now p)
  unfolding buffer_key
  buffer_key-Holds key ex signal now p x h = elim (Bool-cases (flag key p.emitted)) [
    | inl e ↦ rw e h
    | inr e ↦ elim (Bool-cases (flag key p.in_flight || has_pending key p)) [
      | inl f ↦
          rw (e, f) (h.0, store-BuffersHold key _ signal now p.pending (stamp-keeps key p ex x) h.1)
      | inr f ↦
          rw (e, f) (store-BuffersHold key _ signal now p.active (stamp-keeps key p ex x) h.0, h.1)
    ]
  ]

  pub buffer-Holds :
      (ex : Execution) (signal : String) (now : Time) (p : Processor)
      → (join_key ex.trace_id ex.span_id ≢ "" → P (join_key ex.trace_id ex.span_id) ex)
      → Holds P p
      → Holds P (buffer quote ex signal now p)
  unfolding buffer
  buffer-Holds ex signal now p x h = elim (text_cases (join_key ex.trace_id ex.span_id) "") [
    | inl (e, t) ↦ rw e h
    | inr (e, n) ↦ rw e (buffer_key-Holds _ ex signal now p (x n) h)
  ]

  merge_found-keeps :
      (k : String) (ex : Execution) (key : String) (d : Dict Execution)
      → P k ex
      → Values P d
      → P k (merge_found quote ex (get key d))
  unfolding merge_found
  merge_found-keeps k ex key d p h = elim (Option-cases (get key d)) [
    | inl n ↦ rw n p
    | inr (other, e) ↦ rw e (merged k key ex other p (get-Values P key d other h e))
  ]

  assemble_span-keeps :
      (b : Buffers) (key : String) (span : Execution) (both : Bool)
      → P key span
      → BuffersHold P b
      → P key (assemble_span quote b key span both).ex
  unfolding assemble_span
  assemble_span-keeps b key span both p h = elim (Bool-cases (names_parent span)) [
    | inl e ↦
        rw e (merge_found-keeps key _ _ b.logs (merge_found-keeps key span _ b.spans p h.0) h.1)
    | inr e ↦ rw e p
  ]

  assemble_key-keeps :
      (b : Buffers) (key : String) (a : AssembledExecution)
      → BuffersHold P b
      → assemble_key quote b key ≡ some a
      → P key a.ex
  unfolding assemble_key
  assemble_key-keeps b key a h e = elim (Option-cases (get key b.spans)) [
    | inl n ↦ elim (Option-cases (get key b.logs)) [
      | inl m ↦ absurd (cc (rw (n, m, assemble_key) at e))
      | inr (log, m) ↦
          subst (λ (x : AssembledExecution). P key x.ex)
            (some-injective _ _ (rw (n, m, assemble_key) at e)) (get-Values P key b.logs log h.1 m)
    ]
    | inr (span, m) ↦
        subst (λ (x : AssembledExecution). P key x.ex)
          (some-injective _ _ (rw (m, assemble_key) at e))
          (merge_found-keeps key _ key b.logs
            (assemble_span-keeps b key span _ (get-Values P key b.spans span h.0 m) h) h.1)
  ]

  pub snapshots-keep :
      (b : Buffers) (child_of : Dict String) (keys : List String)
      → BuffersHold P b
      → SnapshotsHold P (snapshots quote b child_of keys)
  unfolding snapshots
  snapshots-keep b child_of [] h = tt
  snapshots-keep b child_of (key ∷ rest) h = elim (Bool-cases (is_claimed child_of key)) [
    | inl e ↦ rw e (snapshots-keep b child_of rest h)
    | inr e ↦ elim (Option-cases (assemble_key quote b key)) [
      | inl n ↦ rw (e, n) (snapshots-keep b child_of rest h)
      | inr (a, s) ↦
          rw (e, s)
            (
              subst (λ z. P z a.ex) (sym (own_key quote b key a s))
                  (assemble_key-keeps b key a h s),
              snapshots-keep b child_of rest h,
            )
    ]
  ]

  acknowledge_keys-Holds :
      (keys : List String) (p : Processor) → Holds P p → Holds P (acknowledge_keys keys p)
  unfolding acknowledge_keys
  acknowledge_keys-Holds [] p h = h
  acknowledge_keys-Holds (key ∷ rest) p ((s, l), (t, m)) =
      acknowledge_keys-Holds rest (acknowledge_key key p) (
        (delete-Values P key p.active.spans s, delete-Values P key p.active.logs l),
        (delete-Values P key p.pending.spans t, delete-Values P key p.pending.logs m),
      )

  pub acknowledge-Holds :
      (a : AssembledExecution) (p : Processor) → Holds P p → Holds P (acknowledge a p)
  unfolding acknowledge
  acknowledge-Holds a p h = acknowledge_keys-Holds a.consumed_keys p h

  fold_back-Values :
      (key : String) (pending active : Dict Execution)
      → Values P pending
      → Values P active
      → Values P (fold_back quote key pending active)
  unfolding fold_back
  fold_back-Values key pending active h k = elim (Option-cases (get key pending)) [
    | inl n ↦ rw (n, Values) k
    | inr (ex, e) ↦
        let x = get-Values P key pending ex h e in
        elim (Option-cases (get key active)) [
          | inl m ↦ rw (e, m, Values) (put-Values P key ex active x k)
          | inr (base, f) ↦
              rw (e, f, Values)
                (put-Values P key _ active
                  (merged key key base ex (get-Values P key active base k f) x) k)
        ]
  ]

  fold_back_all :
      (key : String) (p : Processor) → Holds P p → Holds P (merge_pending_into_active quote key p)
  fold_back_all key p ((s, l), (t, m)) = elim (Option-cases (get key p.pending.first_seen)) [
    | inl n ↦ unfold merge_pending_into_active in rw (n, merge_pending_into_active) ((s, l), (t, m))
    | inr (seen, e) ↦
        unfold merge_pending_into_active in
        rw (e, merge_pending_into_active)
          (
            (
              fold_back-Values key p.pending.spans p.active.spans t s,
              fold_back-Values key p.pending.logs p.active.logs m l,
            ),
            (delete-Values P key p.pending.spans t, delete-Values P key p.pending.logs m),
          )
  ]

  restore_key-Holds : (key : String) (p : Processor) → Holds P p → Holds P (restore_key quote key p)
  unfolding restore_key
  restore_key-Holds key p h = fold_back_all key p h

  restore_keys-Holds :
      (keys restored : List String) (p : Processor)
      → Holds P p
      → Holds P (restore_keys quote keys restored p).1
  unfolding restore_keys
  restore_keys-Holds [] restored p h = h
  restore_keys-Holds (key ∷ rest) restored p h = elim (Bool-cases (member key restored)) [
    | inl e ↦ rw e (restore_keys-Holds rest restored p h)
    | inr e ↦ rw e (
        restore_keys-Holds rest (key ∷ restored) (restore_key quote key p)
          (restore_key-Holds key p h))
  ]

  restore_from-Holds :
      (records : List AssembledExecution) (restored : List String) (p : Processor)
      → Holds P p
      → Holds P (restore_from quote records restored p)
  unfolding restore_from
  restore_from-Holds [] restored p h = h
  restore_from-Holds (a ∷ rest) restored p h =
      let (restored', q) = restore_keys quote a.consumed_keys restored p in
      restore_from-Holds rest restored' q (restore_keys-Holds a.consumed_keys restored p h)

  pub restore_reserved-Holds :
      (records : List AssembledExecution) (p : Processor)
      → Holds P p
      → Holds P (restore_reserved quote records p)
  unfolding restore_reserved
  restore_reserved-Holds records p h = restore_from-Holds records [] p h

  pub assemble_out-SnapshotsHold :
      (cutoff : Time) (order : List (String × Execution)) (p : Processor)
      → Holds P p
      → SnapshotsHold P (assemble_out quote cutoff order p)
  unfolding assemble_out
  assemble_out-SnapshotsHold cutoff order p h =
      sort_by_key-All (λ a. P a.key a.ex) _ (snapshots-keep p.active _ _ h.0)
