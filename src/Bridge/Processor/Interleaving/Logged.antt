-- ===== src/Bridge/Processor/Interleaving/Logged.antt =====
-- The logs of a key: what is buffered as a log stays so until the key is emitted.
use evidra_agentgateway_brid.Prelude.{
  String, ◌≡◌, ◌≢◌, refl, Bool, true, false, ◌&&◌, ◌||◌, List, [], ◌∷◌, ◌==◌, arith, inl, inr,
  if◌then◌else◌, text_cases, eq_false, eq_refl, Bool-cases, ap,
}
use evidra_agentgateway_brid.Dict.{has, flag, flag-put}
use evidra_agentgateway_brid.Observation.{Time, Execution, join_key}
use evidra_agentgateway_brid.Bridge.Merge.{member}
use evidra_agentgateway_brid.Bridge.State.{
  Buffers, Processor, signal_logs, store, buffer_key, buffer, stamp, set_observer,
}
use evidra_agentgateway_brid.Bridge.Assembly.{
  AssembledExecution, acknowledge_key, acknowledge_keys, acknowledge, count_failure, restore_key,
  restore_keys, restore_from, restore_reserved,
}
use evidra_agentgateway_brid.Bridge.Processor.{reserve_out}
use evidra_agentgateway_brid.Bridge.Processor.Interleaving.{
  World, Step, count, observe, receive, claim, skip, begin, succeed, fail, roll_back, finish, Reach,
  here, next,
}
use evidra_agentgateway_brid.Bridge.Processor.Interleaving.Frame.{restore_key-frame}
use evidra_agentgateway_brid.Bridge.Processor.Interleaving.Held.{has-delete, has-merge_into}
use evidra_agentgateway_brid.Bridge.Processor.Interleaving.Restoring.{
  has-fold_back, restore_key_cases,
}

-- The key has been emitted, or a log of it is buffered.
abbrev pub logged : String → Processor → Bool
logged k p = flag k p.emitted || (has k p.active.logs || has k p.pending.logs)

logged-acknowledge_key :
    (key k : String) (p : Processor) → logged k p ≡ true → logged k (acknowledge_key key p) ≡ true
unfolding acknowledge_key
logged-acknowledge_key key k p h = ground (
  arith,
  flag-put key k true p.emitted,
  has-delete key k p.active.logs,
  has-delete key k p.pending.logs,
)

logged-acknowledge_keys :
    (keys : List String) (k : String) (p : Processor)
    → logged k p ≡ true
    → logged k (acknowledge_keys keys p) ≡ true
unfolding acknowledge_keys
logged-acknowledge_keys [] k p h = h
logged-acknowledge_keys (key ∷ rest) k p h =
    logged-acknowledge_keys rest k (acknowledge_key key p) (logged-acknowledge_key key k p h)

logged-acknowledge :
    (a : AssembledExecution) (k : String) (p : Processor)
    → logged k p ≡ true
    → logged k (acknowledge a p) ≡ true
unfolding acknowledge
logged-acknowledge a k p h = logged-acknowledge_keys a.consumed_keys k p h

module _ (quote : String → String) where
  logs-store :
      (key k : String) (ex : Execution) (signal : String) (now : Time) (b : Buffers)
      → has k b.logs ≡ true
      → has k (store quote key ex signal now b).logs ≡ true
  unfolding store
  logs-store key k ex signal now b h = ground (arith, has-merge_into quote key k ex b.logs)

  logs-store_own :
      (key : String) (ex : Execution) (now : Time) (b : Buffers)
      → has key (store quote key ex signal_logs now b).logs ≡ true
  unfolding store
  logs-store_own key ex now b =
      rw (eq_refl signal_logs, has-merge_into quote key key ex b.logs, eq_refl key) refl

  logged-buffer :
      (ex : Execution) (signal : String) (now : Time) (k : String) (p : Processor)
      → logged k p ≡ true
      → logged k (buffer quote ex signal now p) ≡ true
  unfolding buffer buffer_key
  logged-buffer ex signal now k p h =
      let key = join_key ex.trace_id ex.span_id in
      ground (
        arith,
        logs-store key k (stamp p ex) signal now p.active,
        logs-store key k (stamp p ex) signal now p.pending,
      )

  -- A signal of the logs is buffered as a log.
  pub received-logged :
      (ex : Execution) (now : Time) (p : Processor)
      → join_key ex.trace_id ex.span_id ≢ ""
      → logged (join_key ex.trace_id ex.span_id) (buffer quote ex signal_logs now p) ≡ true
  unfolding buffer buffer_key
  received-logged ex now p n =
      let key = join_key ex.trace_id ex.span_id in
      rw (eq_false key "" n) (
        ground (
          arith,
          logs-store_own key (stamp p ex) now p.active,
          logs-store_own key (stamp p ex) now p.pending,
        ))

  logged_moved :
      (key k : String) (p : Processor)
      → logged k p ≡ true
      → flag k p.emitted
          || ((has k p.active.logs || (key == k && has key p.pending.logs))
              || (if key == k then false else has k p.pending.logs))
        ≡ true
  logged_moved key k p h = elim (text_cases key k) [
    | inl (t, e) ↦ ground (arith, ap (λ j. has j p.pending.logs) e)
    | inr (t, n) ↦ ground arith
  ]

  logged-restore_key :
      (key k : String) (p : Processor)
      → logged k p ≡ true
      → logged k (restore_key quote key p) ≡ true
  logged-restore_key key k p h = elim (restore_key_cases quote key p) [
    | inl (n, e) ↦ rw e h
    | inr (seen, g, s, l, f, s', l', f') ↦
        rw ((restore_key-frame quote key p).0, l, l', has-fold_back, has-delete)
          (logged_moved key k p h)
  ]

  logged-restore_keys :
      (keys restored : List String) (k : String) (p : Processor)
      → logged k p ≡ true
      → logged k (restore_keys quote keys restored p).1 ≡ true
  unfolding restore_keys
  logged-restore_keys [] restored k p h = h
  logged-restore_keys (key ∷ rest) restored k p h = elim (Bool-cases (member key restored)) [
    | inl e ↦ rw e (logged-restore_keys rest restored k p h)
    | inr e ↦ rw e (
        logged-restore_keys rest (key ∷ restored) k (restore_key quote key p)
          (logged-restore_key key k p h))
  ]

  logged-restore_from :
      (records : List AssembledExecution) (restored : List String) (k : String) (p : Processor)
      → logged k p ≡ true
      → logged k (restore_from quote records restored p) ≡ true
  unfolding restore_from
  logged-restore_from [] restored k p h = h
  logged-restore_from (a ∷ rest) restored k p h =
      let (restored', q) = restore_keys quote a.consumed_keys restored p in
      logged-restore_from rest restored' k q (logged-restore_keys a.consumed_keys restored k p h)

  logged-restore_reserved :
      (records : List AssembledExecution) (k : String) (p : Processor)
      → logged k p ≡ true
      → logged k (restore_reserved quote records p) ≡ true
  unfolding restore_reserved
  logged-restore_reserved records k p h = logged-restore_from records [] k p h

  module _ (Admitted : Execution → Type 0) where
    logged-Step :
        (k : String) (w u : World)
        → Step quote Admitted w u
        → logged k w.processor ≡ true
        → logged k u.processor ≡ true
    logged-Step k w u (count logs spans ignored e) h = rw e h
    logged-Step k w u (observe id version e) h = rw e (unfold set_observer in h)
    logged-Step k w u (receive ex signal now ok e) h =
        rw e (logged-buffer ex signal now k w.processor h)
    logged-Step k w u (claim cutoff order c e) h = rw e (unfold reserve_out in h)
    logged-Step k w u (skip a rest c f e) h = rw e h
    logged-Step k w u (begin a rest c f e) h = rw e h
    logged-Step k w u (succeed a rest c e) h = rw e (logged-acknowledge a k w.processor h)
    logged-Step k w u (fail a rest c e) h = rw e (unfold count_failure in h)
    logged-Step k w u (roll_back records c e) h =
        rw e (logged-restore_reserved records k w.processor h)
    logged-Step k w u (finish c e) h = rw e h

    pub logged-Reach :
        (k : String) {w u : World}
        → logged k w.processor ≡ true
        → Reach quote Admitted w u
        → logged k u.processor ≡ true
    logged-Reach k h here = h
    logged-Reach k h (next {u} {v} r st) = logged-Step k u v st (logged-Reach k h r)
