-- ===== src/Bridge/Processor/Interleaving/Everywhere.antt =====
-- What holds of every signal that is received, and merging keeps, and what an assembly makes of it.
use mathlib.Core.Path.{subst}
use evidra_agentgateway_brid.Prelude.{String, ◌≢◌, List, All}
use evidra_agentgateway_brid.Prelude.Int.{ℤ}
use evidra_agentgateway_brid.Observation.{Time, Execution, Source, join_key}
use evidra_agentgateway_brid.Bridge.Merge.{merge}
use evidra_agentgateway_brid.Bridge.State.{Processor, new_processor, set_observer}
use evidra_agentgateway_brid.Bridge.Assembly.{AssembledExecution, count_failure}
use evidra_agentgateway_brid.Bridge.Processor.{assemble_out, reserve_out}
use evidra_agentgateway_brid.Bridge.Processor.Interleaving.{
  World, Control, idle, running, writing, failed, Step, count, observe, receive, claim, skip, begin,
  succeed, fail, roll_back, finish, Reach, here, next,
}
use evidra_agentgateway_brid.Bridge.Processor.Interleaving.Keeps.{
  Holds, buffer-Holds, acknowledge-Holds, restore_reserved-Holds,
}
use evidra_agentgateway_brid.Bridge.Processor.Interleaving.Once.{start}

abbrev pub ControlHolds : (AssembledExecution → Type 0) → Control → Type 0
ControlHolds Q idle = Unit
ControlHolds Q (running l) = All Q l
ControlHolds Q (writing a rest) = Q a × All Q rest
ControlHolds Q (failed l) = Unit

pub record Everywhere (P : String → Execution → Type 0) (Q : AssembledExecution → Type 0)
    (w : World) : Type 0 where
  pub buffered : Holds P w.processor
  pub control : ControlHolds Q w.control
  pub written : All Q w.written

module _ (quote : String → String) (Admitted : Execution → Type 0) (P : String → Execution → Type 0)
    (Q : AssembledExecution → Type 0)
    (merged : (k j : String) (a b : Execution) → P k a → P j b → P k (merge quote a b))
    (stamped : (k : String) (s : Source) (a : Execution) → P k a → P k (record a { source = s }))
    (received : (ex : Execution)
      → Admitted ex
      → join_key ex.trace_id ex.span_id ≢ ""
      → P (join_key ex.trace_id ex.span_id) ex)
    (taken : (cutoff : Time) (order : List (String × Execution)) (p : Processor)
      → Holds P p
      → All Q (assemble_out quote cutoff order p)) where
  Step-Everywhere : (w u : World) → Step quote Admitted w u → Everywhere P Q w → Everywhere P Q u
  Step-Everywhere w u (count logs spans ignored e) h =
      rw e (record { buffered = h.buffered; control = h.control; written = h.written })
  Step-Everywhere w u (observe id version e) h = rw e (
      unfold set_observer in
      record { buffered = h.buffered; control = h.control; written = h.written })
  Step-Everywhere w u (receive ex signal now x e) h = rw e (record {
    buffered =
        buffer-Holds quote P merged stamped ex signal now w.processor (received ex x) h.buffered;
    control = h.control;
    written = h.written;
  })
  Step-Everywhere w u (claim cutoff order c e) h = rw e (record {
    buffered = unfold reserve_out in h.buffered;
    control = taken cutoff order w.processor h.buffered;
    written = h.written;
  })
  Step-Everywhere w u (skip a rest c f e) h = rw e (record {
    buffered = h.buffered;
    control = (subst (ControlHolds Q) c h.control).1;
    written = h.written;
  })
  Step-Everywhere w u (begin a rest c f e) h = rw e (record {
    buffered = h.buffered;
    control = subst (ControlHolds Q) c h.control;
    written = h.written;
  })
  Step-Everywhere w u (succeed a rest c e) h =
      let (x, k) = subst (ControlHolds Q) c h.control in
      rw e (record {
        buffered = acknowledge-Holds quote P merged stamped a w.processor h.buffered;
        control = k;
        written = (x, h.written);
      })
  Step-Everywhere w u (fail a rest c e) h =
      rw e (record {
        buffered = unfold count_failure in h.buffered;
        control = tt;
        written = h.written;
      })
  Step-Everywhere w u (roll_back records c e) h = rw e (record {
    buffered = restore_reserved-Holds quote P merged stamped records w.processor h.buffered;
    control = tt;
    written = h.written;
  })
  Step-Everywhere w u (finish c e) h =
      rw e (record { buffered = h.buffered; control = tt; written = h.written })

  Reach-Everywhere : {w u : World} → Everywhere P Q w → Reach quote Admitted w u → Everywhere P Q u
  Reach-Everywhere h here = h
  Reach-Everywhere h (next {u} {v} r st) = Step-Everywhere u v st (Reach-Everywhere h r)

  start-Everywhere : (max_wait : ℤ) → Everywhere P Q (start max_wait)
  unfolding new_processor
  start-Everywhere max_wait = record { buffered = ((tt, tt), (tt, tt)); control = tt; written = tt }

  -- What every assembly makes of what is received holds of every written record.
  pub written_everywhere :
      (max_wait : ℤ) (w : World) → Reach quote Admitted (start max_wait) w → All Q w.written
  written_everywhere max_wait w r = (Reach-Everywhere (start-Everywhere max_wait) r).written
