-- ===== src/Bridge/Processor/Interleaving/Held.antt =====
-- What is buffered under a key, and what a step does to it: nothing that is held is dropped before it
-- is written.
use evidra_agentgateway_brid.Prelude.{
  String, ◌≡◌, refl, Bool, true, false, ◌&&◌, ◌||◌, some, List, [], ◌∷◌, ◌==◌, arith, ◌⊎◌, inl, inr,
  eq_iff, Elem, if◌then◌else◌, text_cases, eq_false, eq_refl, sym, ◌≢◌,
}
use evidra_agentgateway_brid.Dict.{Dict, get, put, delete, has, flag, get-put, get-delete, flag-put}
use evidra_agentgateway_brid.Observation.{Time, Execution, join_key}
use evidra_agentgateway_brid.Bridge.State.{
  Buffers, Processor, merge_into, store, buffer_key, buffer, stamp,
}
use evidra_agentgateway_brid.Bridge.Assembly.{
  AssembledExecution, acknowledge_key, acknowledge_keys, acknowledge,
}

-- Signals of the key are buffered, and the key will be ready.
abbrev pub held : String → Buffers → Bool
held k b = (has k b.spans || has k b.logs) && has k b.first_seen

-- The key has been written, or its signals are held in one of the generations.
abbrev pub kept : String → Processor → Bool
kept k p = flag k p.emitted || (held k p.active || held k p.pending)

or_true : (b : Bool) → (b || true) ≡ true
or_true true = refl
or_true false = refl

pub has-put :
    {V : Type 0} (k j : String) (v : V) (d : Dict V)
    → has j (put k v d) ≡ (if k == j then true else has j d)
unfolding has
has-put k j v d = ground (arith, get-put k j v d)

pub has-delete :
    {V : Type 0} (k j : String) (d : Dict V)
    → has j (delete k d) ≡ (if k == j then false else has j d)
unfolding has
has-delete k j d = ground (arith, get-delete k j d)

pub has-some : {V : Type 0} (k : String) (v : V) (d : Dict V) → get k d ≡ some v → has k d ≡ true
unfolding has
has-some k v d e = rw (e, has) refl

module _ (quote : String → String) where
  pub has-merge_into :
      (key k : String) (ex : Execution) (d : Dict Execution)
      → has k (merge_into quote key ex d) ≡ (if key == k then true else has k d)
  unfolding merge_into
  has-merge_into key k ex d = has-put key k _ d

  held-store :
      (key k : String) (ex : Execution) (signal : String) (now : Time) (b : Buffers)
      → held k (store quote key ex signal now b) ≡ (if key == k then true else held k b)
  unfolding store
  held-store key k ex signal now b = ground (
    arith,
    has-merge_into key k ex b.spans,
    has-merge_into key k ex b.logs,
    has-put key k now b.first_seen,
    eq_iff key k,
  )

  -- A signal that is taken in is kept, and what was kept is kept.
  kept-buffer_key :
      (key k : String) (ex : Execution) (signal : String) (now : Time) (p : Processor)
      → (kept k p || key == k) ≡ true
      → kept k (buffer_key quote key ex signal now p) ≡ true
  unfolding buffer_key
  kept-buffer_key key k ex signal now p h = ground (
    arith,
    held-store key k (stamp p ex) signal now p.active,
    held-store key k (stamp p ex) signal now p.pending,
    eq_iff key k,
  )

  pub kept-buffer :
      (ex : Execution) (signal : String) (now : Time) (k : String) (p : Processor)
      → kept k p ≡ true
      → kept k (buffer quote ex signal now p) ≡ true
  unfolding buffer
  kept-buffer ex signal now k p h = elim (text_cases (join_key ex.trace_id ex.span_id) "") [
    | inl (e, t) ↦ rw e h
    | inr (e, t) ↦
        rw e (kept-buffer_key (join_key ex.trace_id ex.span_id) k ex signal now p (rw h refl))
  ]

  pub received-kept :
      (ex : Execution) (signal : String) (now : Time) (p : Processor)
      → join_key ex.trace_id ex.span_id ≢ ""
      → kept (join_key ex.trace_id ex.span_id) (buffer quote ex signal now p) ≡ true
  unfolding buffer
  received-kept ex signal now p n =
      let key = join_key ex.trace_id ex.span_id in
      rw (eq_false key "" n)
        (kept-buffer_key key key ex signal now p (rw (eq_refl key) (or_true (kept key p))))

kept-acknowledge_key :
    (key k : String) (p : Processor) → kept k p ≡ true → kept k (acknowledge_key key p) ≡ true
unfolding acknowledge_key
kept-acknowledge_key key k p h = ground (
  arith,
  flag-put key k true p.emitted,
  has-delete key k p.active.spans,
  has-delete key k p.active.logs,
  has-delete key k p.active.first_seen,
  has-delete key k p.pending.spans,
  has-delete key k p.pending.logs,
  has-delete key k p.pending.first_seen,
)

kept-acknowledge_keys :
    (keys : List String) (k : String) (p : Processor)
    → kept k p ≡ true
    → kept k (acknowledge_keys keys p) ≡ true
unfolding acknowledge_keys
kept-acknowledge_keys [] k p h = h
kept-acknowledge_keys (key ∷ rest) k p h =
    kept-acknowledge_keys rest k (acknowledge_key key p) (kept-acknowledge_key key k p h)

pub kept-acknowledge :
    (a : AssembledExecution) (k : String) (p : Processor)
    → kept k p ≡ true
    → kept k (acknowledge a p) ≡ true
unfolding acknowledge
kept-acknowledge a k p h = kept-acknowledge_keys a.consumed_keys k p h

-- A key that has become emitted was consumed by the acknowledged record.
emitted-acknowledge_keys :
    (keys : List String) (k : String) (p : Processor)
    → flag k (acknowledge_keys keys p).emitted ≡ true
    → Elem k keys ⊎ (flag k p.emitted ≡ true)
unfolding acknowledge_keys
emitted-acknowledge_keys [] k p h = inr h
emitted-acknowledge_keys (key ∷ rest) k p h =
    elim (emitted-acknowledge_keys rest k (acknowledge_key key p) h) [
      | inl m ↦ inl (inr m)
      | inr f ↦ elim (text_cases key k) [
        | inl (t, e) ↦ inl (inl (sym e))
        | inr (t, n) ↦ inr (rw (flag-put, t) at f)
      ]
    ]

pub emitted-acknowledge :
    (a : AssembledExecution) (k : String) (p : Processor)
    → flag k (acknowledge a p).emitted ≡ true
    → Elem k a.consumed_keys ⊎ (flag k p.emitted ≡ true)
unfolding acknowledge
emitted-acknowledge a k p h = emitted-acknowledge_keys a.consumed_keys k p h
