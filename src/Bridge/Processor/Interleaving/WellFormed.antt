-- ===== src/Bridge/Processor/Interleaving/WellFormed.antt =====
-- The processor is well formed at every moment, whatever interleaves.
use evidra_agentgateway_brid.Prelude.{String, ◌≡◌, refl}
use evidra_agentgateway_brid.Prelude.Int.{ℤ}
use evidra_agentgateway_brid.Dict.{get, has, flag}
use evidra_agentgateway_brid.Observation.{Execution}
use evidra_agentgateway_brid.Bridge.State.{Processor, new_processor, set_observer}
use evidra_agentgateway_brid.Bridge.Assembly.{count_failure}
use evidra_agentgateway_brid.Bridge.Processor.Interleaving.{
  World, Step, count, observe, receive, claim, skip, begin, succeed, fail, roll_back, finish, Reach,
  here, next,
}
use evidra_agentgateway_brid.Bridge.Processor.Interleaving.Once.{start}
use evidra_agentgateway_brid.Bridge.Processor.Interleaving.Sound.{
  IsSound, buffer-IsSound, acknowledge-IsSound, restore_reserved-IsSound,
}
use evidra_agentgateway_brid.Bridge.Processor.Interleaving.Reserved.{reserve_out-IsSound}

-- Statistics and the observer's name are not part of what is sound.
same_maps :
    (k : String) (p q : Processor)
    → q.active ≡ p.active
    → q.pending ≡ p.pending
    → q.in_flight ≡ p.in_flight
    → q.emitted ≡ p.emitted
    → IsSound k p
    → IsSound k q
same_maps k p q a b c d h = record {
  active_whole = rw a h.active_whole;
  pending_whole = rw b h.pending_whole;
  emitted_gone = rw (a, b, c, d) h.emitted_gone;
  pending_in_flight = rw (b, c) h.pending_in_flight;
}

module _ (quote : String → String) (Admitted : Execution → Type 0) where
  Step-IsSound :
      (k : String) (w u : World)
      → Step quote Admitted w u
      → IsSound k w.processor
      → IsSound k u.processor
  unfolding set_observer count_failure
  Step-IsSound k w u (count logs spans ignored e) h =
      rw e (same_maps k w.processor _ refl refl refl refl h)
  Step-IsSound k w u (observe id version e) h =
      rw e (same_maps k w.processor _ refl refl refl refl h)
  Step-IsSound k w u (receive ex signal now ok e) h =
      rw e (buffer-IsSound quote ex signal now k w.processor h)
  Step-IsSound k w u (claim cutoff order c e) h =
      rw e (reserve_out-IsSound quote cutoff order k w.processor h)
  Step-IsSound k w u (skip a rest c f e) h = rw e h
  Step-IsSound k w u (begin a rest c f e) h = rw e h
  Step-IsSound k w u (succeed a rest c e) h = rw e (acknowledge-IsSound a k w.processor h)
  Step-IsSound k w u (fail a rest c e) h = rw e (same_maps k w.processor _ refl refl refl refl h)
  Step-IsSound k w u (roll_back records c e) h =
      rw e (restore_reserved-IsSound quote records k w.processor h)
  Step-IsSound k w u (finish c e) h = rw e h

  start-IsSound : (max_wait : ℤ) (k : String) → IsSound k (start max_wait).processor
  unfolding new_processor has flag get
  start-IsSound max_wait k = record {
    active_whole = refl;
    pending_whole = refl;
    emitted_gone = refl;
    pending_in_flight = refl;
  }

  Reach-IsSound :
      (k : String) {w u : World}
      → IsSound k w.processor
      → Reach quote Admitted w u
      → IsSound k u.processor
  Reach-IsSound k h here = h
  Reach-IsSound k h (next {u} {v} r st) = Step-IsSound k u v st (Reach-IsSound k h r)

  -- At every moment and for every key: in the active generation and in the pending one the key has a
  -- first-seen time exactly if it has a span or a log there, a key that is emitted is buffered in
  -- neither generation and is not in flight, and a key is pending only while it is in flight.
  pub processor_IsSound :
      (max_wait : ℤ) (w : World) (k : String)
      → Reach quote Admitted (start max_wait) w
      → IsSound k w.processor
  processor_IsSound max_wait w k r = Reach-IsSound k (start-IsSound max_wait k) r
