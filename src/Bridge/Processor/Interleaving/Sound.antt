-- ===== src/Bridge/Processor/Interleaving/Sound.antt =====
-- What holds of a processor key by key: the maps of a generation go together, what is emitted is
-- buffered nowhere, and only what is in flight is pending.
use evidra_agentgateway_brid.Prelude.{
  String, ◌≡◌, Bool, true, false, ◌||◌, not, List, [], ◌∷◌, ◌==◌, arith, inl, inr, eq_iff,
  Bool-cases, text_cases, if◌then◌else◌,
}
use evidra_agentgateway_brid.Dict.{has, flag, flag-put, flag-delete}
use evidra_agentgateway_brid.Observation.{Time, Execution, join_key}
use evidra_agentgateway_brid.Bridge.Merge.{member}
use evidra_agentgateway_brid.Bridge.State.{Buffers, Processor, store, buffer_key, buffer, stamp}
use evidra_agentgateway_brid.Bridge.Assembly.{
  AssembledExecution, acknowledge_key, acknowledge_keys, acknowledge, restore_key, restore_keys,
  restore_from, restore_reserved, merge_pending_into_active,
}
use evidra_agentgateway_brid.Bridge.Processor.Interleaving.Frame.{restore_key-frame}
use evidra_agentgateway_brid.Bridge.Processor.Interleaving.Held.{
  has-put, has-delete, has-some, has-merge_into,
}
use evidra_agentgateway_brid.Bridge.Processor.Interleaving.Restoring.{
  has-fold_back, has-first_seen, restore_key_cases,
}

-- The key has a first-seen time exactly if it has a span or a log.
abbrev pub has_data : String → Buffers → Bool
has_data k b = has k b.spans || has k b.logs

pub record IsSound (k : String) (p : Processor) : Type 0 where
  pub active_whole : has k p.active.first_seen ≡ has_data k p.active
  pub pending_whole : has k p.pending.first_seen ≡ has_data k p.pending
  pub emitted_gone :
      (not (flag k p.emitted)
        || not (has k p.active.first_seen || has k p.pending.first_seen || flag k p.in_flight))
      ≡ true
  pub pending_in_flight : (not (has k p.pending.first_seen) || flag k p.in_flight) ≡ true

module _ (quote : String → String) where
  -- What `buffer_key` does to the maps of one generation.
  store_whole :
      (key k : String) (ex : Execution) (signal : String) (now : Time) (b : Buffers)
      → has k b.first_seen ≡ has_data k b
      → (has k (store quote key ex signal now b).first_seen
          ≡ (if key == k then true else has k b.first_seen))
        × (has_data k (store quote key ex signal now b)
            ≡ (if key == k then true else has k b.first_seen))
  unfolding store
  store_whole key k ex signal now b h = ground (
    arith,
    has-merge_into quote key k ex b.spans,
    has-merge_into quote key k ex b.logs,
    has-put key k now b.first_seen,
    eq_iff key k,
  )

  buffer_key-IsSound :
      (key k : String) (ex : Execution) (signal : String) (now : Time) (p : Processor)
      → IsSound k p
      → IsSound k (buffer_key quote key ex signal now p)
  unfolding buffer_key
  buffer_key-IsSound key k ex signal now p h = ground (
    arith,
    store_whole key k (stamp p ex) signal now p.active,
    store_whole key k (stamp p ex) signal now p.pending,
    eq_iff key k,
  )

  pub buffer-IsSound :
      (ex : Execution) (signal : String) (now : Time) (k : String) (p : Processor)
      → IsSound k p
      → IsSound k (buffer quote ex signal now p)
  unfolding buffer
  buffer-IsSound ex signal now k p h = elim (text_cases (join_key ex.trace_id ex.span_id) "") [
    | inl (e, t) ↦ rw e (record {
      active_whole = h.active_whole;
      pending_whole = h.pending_whole;
      emitted_gone = h.emitted_gone;
      pending_in_flight = h.pending_in_flight;
    })
    | inr (e, t) ↦ rw e (buffer_key-IsSound (join_key ex.trace_id ex.span_id) k ex signal now p h)
  ]

acknowledge_key-IsSound :
    (key k : String) (p : Processor) → IsSound k p → IsSound k (acknowledge_key key p)
unfolding acknowledge_key
acknowledge_key-IsSound key k p h = ground (
  arith,
  flag-put key k true p.emitted,
  flag-delete key k p.in_flight,
  has-delete key k p.active.spans,
  has-delete key k p.active.logs,
  has-delete key k p.active.first_seen,
  has-delete key k p.pending.spans,
  has-delete key k p.pending.logs,
  has-delete key k p.pending.first_seen,
)

acknowledge_keys-IsSound :
    (keys : List String) (k : String) (p : Processor)
    → IsSound k p
    → IsSound k (acknowledge_keys keys p)
unfolding acknowledge_keys
acknowledge_keys-IsSound [] k p h = h
acknowledge_keys-IsSound (key ∷ rest) k p h =
    acknowledge_keys-IsSound rest k (acknowledge_key key p) (acknowledge_key-IsSound key k p h)

pub acknowledge-IsSound :
    (a : AssembledExecution) (k : String) (p : Processor)
    → IsSound k p
    → IsSound k (acknowledge a p)
unfolding acknowledge
acknowledge-IsSound a k p h =
    let s = acknowledge_keys-IsSound a.consumed_keys k p h in
    record {
      active_whole = s.active_whole;
      pending_whole = s.pending_whole;
      emitted_gone = s.emitted_gone;
      pending_in_flight = s.pending_in_flight;
    }

module _ (quote : String → String) where
  pub restore_key-in_flight :
      (key k : String) (p : Processor)
      → flag k (restore_key quote key p).in_flight
        ≡ (if key == k then false else flag k p.in_flight)
  unfolding restore_key merge_pending_into_active
  restore_key-in_flight key k p = ground (arith, flag-delete key k p.in_flight)

  restore_key-IsSound :
      (key k : String) (p : Processor) → IsSound k p → IsSound k (restore_key quote key p)
  restore_key-IsSound key k p h = elim (restore_key_cases quote key p) [
    | inl (n, e) ↦ rw e (ground (arith, flag-delete key k p.in_flight, eq_iff key k))
    | inr (seen, g, s, l, f, s', l', f') ↦
        let t = has-some key seen p.pending.first_seen g in
        record {
          active_whole =
              rw (s, l, f, has-fold_back, has-fold_back, has-first_seen)
                (ground (arith, eq_iff key k));
          pending_whole = rw (s', l', f', has-delete, has-delete, has-delete) (ground arith);
          emitted_gone =
              rw
                (
                  (restore_key-frame quote key p).0,
                  f,
                  f',
                  has-first_seen,
                  has-delete,
                  restore_key-in_flight,
                )
                (ground (arith, eq_iff key k));
          pending_in_flight = rw (f', has-delete, restore_key-in_flight) (ground arith);
        }
  ]

  restore_keys-IsSound :
      (keys restored : List String) (k : String) (p : Processor)
      → IsSound k p
      → IsSound k (restore_keys quote keys restored p).1
  unfolding restore_keys
  restore_keys-IsSound [] restored k p h = h
  restore_keys-IsSound (key ∷ rest) restored k p h = elim (Bool-cases (member key restored)) [
    | inl e ↦ rw e (restore_keys-IsSound rest restored k p h)
    | inr e ↦ rw e (
        restore_keys-IsSound rest (key ∷ restored) k (restore_key quote key p)
          (restore_key-IsSound key k p h))
  ]

  restore_from-IsSound :
      (records : List AssembledExecution) (restored : List String) (k : String) (p : Processor)
      → IsSound k p
      → IsSound k (restore_from quote records restored p)
  unfolding restore_from
  restore_from-IsSound [] restored k p h = h
  restore_from-IsSound (a ∷ rest) restored k p h =
      let (restored', q) = restore_keys quote a.consumed_keys restored p in
      restore_from-IsSound rest restored' k q (restore_keys-IsSound a.consumed_keys restored k p h)

  pub restore_reserved-IsSound :
      (records : List AssembledExecution) (k : String) (p : Processor)
      → IsSound k p
      → IsSound k (restore_reserved quote records p)
  unfolding restore_reserved
  restore_reserved-IsSound records k p h = restore_from-IsSound records [] k p h
