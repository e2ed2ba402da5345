-- ===== src/Bridge/Processor/Interleaving/Retention.antt =====
-- A signal that was received is held until a record that consumes it is written.
use evidra_agentgateway_brid.Prelude.{
  String, ◌≡◌, ◌≢◌, refl, true, ◌||◌, List, [], ◌∷◌, ◌⊎◌, inl, inr, Elem, Bool-cases,
}
use evidra_agentgateway_brid.Prelude.Int.{ℤ}
use evidra_agentgateway_brid.Dict.{get, flag}
use evidra_agentgateway_brid.Observation.{Time, Execution, join_key}
use evidra_agentgateway_brid.Bridge.State.{new_processor, set_observer, buffer}
use evidra_agentgateway_brid.Bridge.Assembly.{AssembledExecution, count_failure}
use evidra_agentgateway_brid.Bridge.Processor.{reserve_out}
use evidra_agentgateway_brid.Bridge.Processor.Interleaving.{
  World, Step, count, observe, receive, claim, skip, begin, succeed, fail, roll_back, finish, Reach,
  here, next,
}
use evidra_agentgateway_brid.Bridge.Processor.Interleaving.Frame.{
  buffer-emitted, restore_reserved-frame,
}
use evidra_agentgateway_brid.Bridge.Processor.Interleaving.Held.{
  held, kept, kept-buffer, received-kept, kept-acknowledge, emitted-acknowledge,
}
use evidra_agentgateway_brid.Bridge.Processor.Interleaving.Restoring.{kept-restore_reserved}
use evidra_agentgateway_brid.Bridge.Processor.Interleaving.Once.{start}

-- A record that consumes the key is among the written ones.
abbrev pub IsConsumed : String → List AssembledExecution → Type 0
IsConsumed k [] = ⊥
IsConsumed k (a ∷ l) = Elem k a.consumed_keys ⊎ IsConsumed k l

module _ (quote : String → String) (Admitted : Execution → Type 0) where
  kept-Step :
      (k : String) (w u : World)
      → Step quote Admitted w u
      → kept k w.processor ≡ true
      → kept k u.processor ≡ true
  kept-Step k w u (count logs spans ignored e) h = rw e h
  kept-Step k w u (observe id version e) h = rw e (unfold set_observer in h)
  kept-Step k w u (receive ex signal now ok e) h =
      rw e (kept-buffer quote ex signal now k w.processor h)
  kept-Step k w u (claim cutoff order c e) h = rw e (unfold reserve_out in h)
  kept-Step k w u (skip a rest c f e) h = rw e h
  kept-Step k w u (begin a rest c f e) h = rw e h
  kept-Step k w u (succeed a rest c e) h = rw e (kept-acknowledge a k w.processor h)
  kept-Step k w u (fail a rest c e) h = rw e (unfold count_failure in h)
  kept-Step k w u (roll_back records c e) h =
      rw e (kept-restore_reserved quote records k w.processor h)
  kept-Step k w u (finish c e) h = rw e h

  pub kept-Reach :
      (k : String) {w u : World}
      → kept k w.processor ≡ true
      → Reach quote Admitted w u
      → kept k u.processor ≡ true
  kept-Reach k h here = h
  kept-Reach k h (next {u} {v} r st) = kept-Step k u v st (kept-Reach k h r)

  -- Emitted keys are keys of written records.
  Backed : World → Type 0
  Backed w = (k : String) → flag k w.processor.emitted ≡ true → IsConsumed k w.written

  Backed-Step : (w u : World) → Step quote Admitted w u → Backed w → Backed u
  unfolding Backed
  Backed-Step w u (count logs spans ignored e) h = rw e h
  Backed-Step w u (observe id version e) h = rw e (unfold set_observer in h)
  Backed-Step w u (receive ex signal now ok e) h =
      rw (e, buffer-emitted quote ex signal now w.processor) h
  Backed-Step w u (claim cutoff order c e) h = rw e (unfold reserve_out in h)
  Backed-Step w u (skip a rest c f e) h = rw e h
  Backed-Step w u (begin a rest c f e) h = rw e h
  Backed-Step w u (succeed a rest c e) h =
      rw e (λ k m. elim (emitted-acknowledge a k w.processor m) [
        | inl n ↦ inl n
        | inr f ↦ inr (h k f)
      ])
  Backed-Step w u (fail a rest c e) h = rw e (unfold count_failure in h)
  Backed-Step w u (roll_back records c e) h =
      rw (e, (restore_reserved-frame quote records w.processor).0) h
  Backed-Step w u (finish c e) h = rw e h

  Backed-Reach : {w u : World} → Backed w → Reach quote Admitted w u → Backed u
  Backed-Reach h here = h
  Backed-Reach h (next {u} {v} r st) = Backed-Step u v st (Backed-Reach h r)

  start-Backed : (max_wait : ℤ) → Backed (start max_wait)
  unfolding Backed new_processor flag get
  start-Backed max_wait k h = absurd (cc h)

  pub emitted-IsConsumed :
      (max_wait : ℤ) (w : World)
      → Reach quote Admitted (start max_wait) w
      → (k : String) → flag k w.processor.emitted ≡ true
      → IsConsumed k w.written
  unfolding Backed
  emitted-IsConsumed max_wait w r = Backed-Reach (start-Backed max_wait) r

  -- A signal that has a key and is received at any moment is never lost: at every later moment a
  -- record that consumes its key has been written, or signals of its key are buffered, in the active
  -- generation or in the pending one, with the time at which they become ready.
  pub received_never_lost :
      (max_wait : ℤ) (v w : World) (ex : Execution) (signal : String) (now : Time)
      → Reach quote Admitted (start max_wait) v
      → Admitted ex
      → join_key ex.trace_id ex.span_id ≢ ""
      → Reach quote Admitted (record v { processor = buffer quote ex signal now v.processor }) w
      → IsConsumed (join_key ex.trace_id ex.span_id) w.written
        ⊎ ((held (join_key ex.trace_id ex.span_id) w.processor.active
              || held (join_key ex.trace_id ex.span_id) w.processor.pending)
            ≡ true)
  unfolding Backed
  received_never_lost max_wait v w ex signal now r ok n s =
      let key = join_key ex.trace_id ex.span_id in
      let h = kept-Reach key (received-kept quote ex signal now v.processor n) s in
      let b =
        Backed-Reach (Backed-Reach (start-Backed max_wait) (next r (receive ex signal now ok refl)))
          s in
      elim (Bool-cases (flag key w.processor.emitted)) [
        | inl f ↦ inl (b key f)
        | inr f ↦ inr (rw f at h)
      ]
