-- ===== src/Bridge/Processor/Interleaving/Once.antt =====
-- However signals, assemblies and failing writes interleave: how often an execution is written, and the
-- counters say what was written.
use mathlib.Core.Path.{subst}
use evidra_agentgateway_brid.Prelude.{String, ◌≡◌, refl, false, List, [], ◌∷◌, inl, inr, Elem, All}
use evidra_agentgateway_brid.Prelude.Int.{ℤ}
use evidra_agentgateway_brid.Dict.{flag}
use evidra_agentgateway_brid.Observation.{Execution}
use evidra_agentgateway_brid.Bridge.State.{Processor, new_processor, set_observer}
use evidra_agentgateway_brid.Bridge.Assembly.{AssembledExecution, acknowledge, count_failure}
use evidra_agentgateway_brid.Bridge.Processor.{reserve_out}
use evidra_agentgateway_brid.Bridge.Processor.Interleaving.{
  World, Control, idle, running, writing, failed, Step, count, observe, receive, claim, skip, begin,
  succeed, fail, roll_back, finish, Reach, here, next,
}
use evidra_agentgateway_brid.Bridge.Processor.Interleaving.Frame.{
  IsEmitted, IsTally, same-IsTally, buffer-emitted, buffer-IsTally, restore_reserved-frame,
  acknowledge-IsEmitted, acknowledge-IsTally,
}
use evidra_agentgateway_brid.Bridge.Processor.Interleaving.Ownership.{
  Owns, assemble_out-Owns, All-map, All-Elem, Elem-All,
}

-- No record is written for a key that an earlier record, further back in the list, has consumed.
abbrev pub NeverReopened : List AssembledExecution → Type 0
NeverReopened [] = Unit
NeverReopened (a ∷ earlier) =
    All (λ b. ¬ Elem a.key b.consumed_keys) earlier × NeverReopened earlier

-- What holds of the running assembly: its snapshots own their keys, and the key whose record the sink
-- is writing has not been emitted.
abbrev pub ControlInvariant : Processor → Control → Type 0
ControlInvariant p idle = Unit
ControlInvariant p (running l) = All Owns l
ControlInvariant p (writing a rest) = (flag a.key p.emitted ≡ false) × Owns a × All Owns rest
ControlInvariant p (failed l) = Unit

pub record Invariant (w : World) : Type 0 where
  pub control : ControlInvariant w.processor w.control
  pub recorded : All (λ b. All (IsEmitted w.processor) b.consumed_keys) w.written
  pub once : NeverReopened w.written
  pub balanced : IsTally w.written w.processor.stats

abbrev IsWritten : Processor → AssembledExecution → Type 0
IsWritten p b = All (IsEmitted p) b.consumed_keys

-- The record that is being written, whose key is not emitted, was consumed by none before.
fresh_key :
    (p : Processor) (a : AssembledExecution) (l : List AssembledExecution)
    → flag a.key p.emitted ≡ false
    → All (IsWritten p) l
    → All (λ b. ¬ Elem a.key b.consumed_keys) l
fresh_key p a l n h =
    All-map (λ b w. λ m. cc (n, Elem-All (IsEmitted p) a.key b.consumed_keys w m)) l h

acknowledge-IsWritten :
    (a : AssembledExecution) (p : Processor) (l : List AssembledExecution)
    → All (IsWritten p) l
    → All (IsWritten (acknowledge a p)) (a ∷ l)
acknowledge-IsWritten a p l h = (
  All-Elem _ a.consumed_keys (λ k m. acknowledge-IsEmitted a k p (inl m)),
  All-map
      (λ b w.
        All-Elem _ b.consumed_keys
          (λ k m. acknowledge-IsEmitted a k p (inr (Elem-All (IsEmitted p) k b.consumed_keys w m))))
      l h,
)

carry_recorded :
    (p q : Processor) (l : List AssembledExecution)
    → q.emitted ≡ p.emitted
    → All (IsWritten p) l
    → All (IsWritten q) l
carry_recorded p q l e h =
    All-map
      (λ b w.
        All-Elem _ b.consumed_keys (λ k m. rw e (Elem-All (IsEmitted p) k b.consumed_keys w m)))
      l h

carry_control :
    (p q : Processor) (c : Control)
    → q.emitted ≡ p.emitted
    → ControlInvariant p c
    → ControlInvariant q c
carry_control p q idle e h = tt
carry_control p q (running l) e h = h
carry_control p q (writing a rest) e (n, o, r) = (rw e n, o, r)
carry_control p q (failed l) e h = tt

-- A step that keeps the emitted keys and the counters of emitted records.
carry :
    (w : World) (q : Processor)
    → q.emitted ≡ w.processor.emitted
    → IsTally w.written q.stats
    → Invariant w
    → Invariant (record w { processor = q })
carry w q e b h = record {
  control = carry_control w.processor q w.control e h.control;
  recorded = carry_recorded w.processor q w.written e h.recorded;
  once = h.once;
  balanced = b;
}

-- A step that changes the control state, and of the processor neither emitted keys nor counters.
move :
    (w : World) (q : Processor) (c : Control)
    → q.emitted ≡ w.processor.emitted
    → IsTally w.written q.stats
    → ControlInvariant q c
    → Invariant w
    → Invariant (record w { processor = q; control = c })
move w q c e b k h = record {
  control = k;
  recorded = carry_recorded w.processor q w.written e h.recorded;
  once = h.once;
  balanced = b;
}

control_of :
    (w : World) (c : Control) → w.control ≡ c → Invariant w → ControlInvariant w.processor c
control_of w c e h = subst (ControlInvariant w.processor) e h.control

written_more :
    (w : World) (a : AssembledExecution) (rest : List AssembledExecution)
    → w.control ≡ writing a rest
    → Invariant w
    → Invariant (record {
      processor = acknowledge a w.processor;
      control = running rest;
      written = a ∷ w.written;
    })
written_more w a rest c h =
    let (n, o, r) = control_of w (writing a rest) c h in
    record {
      control = r;
      recorded = acknowledge-IsWritten a w.processor w.written h.recorded;
      once = (fresh_key w.processor a w.written n h.recorded, h.once);
      balanced = acknowledge-IsTally w.written a w.processor h.balanced;
    }

module _ (quote : String → String) (Admitted : Execution → Type 0) where
  Step-Invariant : (w u : World) → Step quote Admitted w u → Invariant w → Invariant u
  Step-Invariant w u (count logs spans ignored e) h = rw e (
      carry w _ refl (same-IsTally w.written _ _ h.balanced refl refl refl refl refl refl refl refl)
        h)
  Step-Invariant w u (observe id version e) h =
      rw e (carry w _ (unfold set_observer in refl) (unfold set_observer in h.balanced) h)
  Step-Invariant w u (receive ex signal now ok e) h = rw e (
      carry w _ (buffer-emitted quote ex signal now w.processor)
        (buffer-IsTally quote ex signal now _ w.processor h.balanced) h)
  Step-Invariant w u (claim cutoff order c e) h = rw e (
      move w _ _ (unfold reserve_out in refl) (unfold reserve_out in h.balanced)
        (assemble_out-Owns quote cutoff order w.processor) h)
  Step-Invariant w u (skip a rest c f e) h =
      rw e (move w _ _ refl h.balanced (control_of w (running (a ∷ rest)) c h).1 h)
  Step-Invariant w u (begin a rest c f e) h = rw e (
      move w _ _ refl h.balanced (let k = control_of w (running (a ∷ rest)) c h in (f, k.0, k.1)) h)
  Step-Invariant w u (succeed a rest c e) h = rw e (written_more w a rest c h)
  Step-Invariant w u (fail a rest c e) h = rw e (
      move w _ _ (unfold count_failure in refl)
        (unfold count_failure in
          same-IsTally w.written _ _ h.balanced refl refl refl refl refl refl refl refl)
        tt h)
  Step-Invariant w u (roll_back records c e) h =
      let (i, j) = restore_reserved-frame quote records w.processor in
      rw e (move w _ _ i (rw j h.balanced) tt h)
  Step-Invariant w u (finish c e) h = rw e (move w _ _ refl h.balanced tt h)

  Reach-Invariant : {w u : World} → Invariant w → Reach quote Admitted w u → Invariant u
  Reach-Invariant h here = h
  Reach-Invariant h (next {u} {v} r st) = Step-Invariant u v st (Reach-Invariant h r)

-- A processor as `NewProcessor` makes it, with nothing written.
abbrev pub start : ℤ → World
start max_wait = record { processor = new_processor max_wait; control = idle; written = [] }

start-Invariant : (max_wait : ℤ) → Invariant (start max_wait)
unfolding new_processor
start-Invariant max_wait = record {
  control = tt;
  recorded = tt;
  once = tt;
  balanced = record {
    total = refl;
    correlated = refl;
    unattributed = refl;
    ambiguous = refl;
    merged = refl;
    log_only = refl;
    span_only = refl;
    parents_suppressed = refl;
  };
}

-- Whatever signals arrive, whenever assemblies run, and whichever writes fail: no record is written
-- whose key an earlier record has consumed, as its own or as its suppressed parent.
pub no_execution_twice :
    (quote : String → String) (Admitted : Execution → Type 0) (max_wait : ℤ) (w : World)
    → Reach quote Admitted (start max_wait) w
    → NeverReopened w.written
no_execution_twice quote Admitted max_wait w r =
    (Reach-Invariant quote Admitted (start-Invariant max_wait) r).once

pub counters_balance :
    (quote : String → String) (Admitted : Execution → Type 0) (max_wait : ℤ) (w : World)
    → Reach quote Admitted (start max_wait) w
    → IsTally w.written w.processor.stats
counters_balance quote Admitted max_wait w r =
    (Reach-Invariant quote Admitted (start-Invariant max_wait) r).balanced
