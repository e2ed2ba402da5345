-- ===== src/Bridge/Processor/Complete/Everything.antt =====
-- A flush that reports no error has written everything that was received before it.
use mathlib.Core.Path.{subst}
use mathlib.Core.Option.{none-ne-some}
use evidra_agentgateway_brid.Prelude.{
  String, ◌≡◌, ◌≢◌, sym, ◌∙◌, true, false, arith, inl, inr, Option, none, List, ◌++◌, All,
}
use evidra_agentgateway_brid.Prelude.Int.{ℤ, pos}
use evidra_agentgateway_brid.Dict.{has, flag}
use evidra_agentgateway_brid.Observation.{Time, Execution, join_key}
use evidra_agentgateway_brid.Bridge.State.{Processor, buffer}
use evidra_agentgateway_brid.Bridge.Assembly.{AssembledExecution}
use evidra_agentgateway_brid.Bridge.Processor.{Sink, flush}
use evidra_agentgateway_brid.Bridge.Processor.Interleaving.{World, idle, Reach}
use evidra_agentgateway_brid.Bridge.Processor.Interleaving.Once.{
  NeverReopened, start, no_execution_twice,
}
use evidra_agentgateway_brid.Bridge.Processor.Interleaving.Held.{kept, received-kept}
use evidra_agentgateway_brid.Bridge.Processor.Interleaving.Retention.{
  IsConsumed, kept-Reach, emitted-IsConsumed,
}
use evidra_agentgateway_brid.Bridge.Processor.Interleaving.Sequential.{
  world, records, Wrote, Reach-trans, assemble-Traced,
}
use evidra_agentgateway_brid.Bridge.Processor.Interleaving.Keyed.{IsKeyed, written-IsKeyed}
use evidra_agentgateway_brid.Bridge.Processor.Interleaving.Coherent.{Visits}
use evidra_agentgateway_brid.Bridge.Processor.Interleaving.Flight.{IsLanded}
use evidra_agentgateway_brid.Bridge.Processor.Interleaving.Quiet.{Visited, idle_is_quiet, quiet}
use evidra_agentgateway_brid.Bridge.Processor.Interleaving.WellFormed.{processor_IsSound}
use evidra_agentgateway_brid.Bridge.Processor.Complete.{IsGone, flush_takes_all}
use evidra_agentgateway_brid.Bridge.Processor.Complete.Landing.{assemble-IsLanded}
use evidra_agentgateway_brid.Bridge.Processor.Complete.Snapshots.{HasNoChain}

-- A key that is kept, but buffered nowhere, has been emitted.
kept_emitted :
    (k : String) (p : Processor)
    → kept k p ≡ true
    → IsGone k p
    → has k p.pending.spans ≡ false
    → has k p.pending.logs ≡ false
    → flag k p.emitted ≡ true
kept_emitted k p h (a, b, c) d e = ground arith

module _ (quote : String → String) (Admitted : Execution → Type 0) {S : Type 0}
    (sink : Option (Sink S)) (max_wait : ℤ) where
  -- What the sink accepts during a flush, with what was written before, consumes every key that was
  -- kept, if the flush reports no error.
  pub flush-IsConsumed :
      (order : List (String × Execution)) (p : Processor) (s : S) (l : List AssembledExecution)
      → Reach quote Admitted (start max_wait) (world p idle l)
      → ((k : String) → IsLanded p k)
      → Visits order p.active.spans
      → HasNoChain order
      → (flush quote sink order p s).err ≡ none
      → (let o = flush quote sink order p s in
          (new : List AssembledExecution) × Reach quote Admitted
            (start max_wait)
            (world o.processor idle (new ++ l))
          × Reach quote Admitted (world p idle l) (world o.processor idle (new ++ l))
          × Wrote sink s (records new) o.sink_state
          × ((k : String) → kept k p ≡ true → IsConsumed k (new ++ l)))
  unfolding flush
  flush-IsConsumed order p s l r h v c e =
      let o = flush quote sink order p s in
      let (new, t, w) = assemble-Traced quote Admitted sink (pos 0) order p s l in
      let sound : (k : String) → _ = (λ k. processor_IsSound quote Admitted max_wait _ k r) in
      let end = Reach-trans quote Admitted r t in
      let landed = assemble-IsLanded quote sink (pos 0) order p s sound h v in
      (
        new,
        end,
        t,
        w,
        λ k m. elim (flush_takes_all quote sink order p s sound h v c) [
          | inl (n, gone) ↦
              let (i, x, y, z) =
                quiet quote Admitted k o.processor
                  (processor_IsSound quote Admitted max_wait _ k end) (landed k) in
              emitted-IsConsumed quote Admitted max_wait _ end k
                (kept_emitted k o.processor (kept-Reach quote Admitted k m t) (gone k) x y)
          | inr (f, g, refusal) ↦ absurd (none-ne-some _ (sym e ∙ g))
        ],
      )

  -- Whatever signals arrive, whenever assemblies run and whichever writes fail: if a flush between two
  -- assemblies reports no error, it is a run of the interleaved model that writes exactly what the sink
  -- accepts, and every signal with a key that was received before is consumed by one of the records
  -- written before or during the flush. Each of these has the key of its execution and consumes besides
  -- at most the parent that this names, and none has a key that an earlier one has consumed. The range
  -- of every assembly is taken to visit exactly the buffered spans, and no span that claims a parent to
  -- be claimed itself when the flush begins.
  pub flush_writes_received :
      (v w : World) (ex : Execution) (signal : String) (now : Time)
      (order : List (String × Execution)) (s : S) (r : Reach quote Admitted (start max_wait) w)
      → join_key ex.trace_id ex.span_id ≢ ""
      → Reach quote Admitted (record v { processor = buffer quote ex signal now v.processor }) w
      → Visited quote Admitted r
      → w.control ≡ idle
      → Visits order w.processor.active.spans
      → HasNoChain order
      → (flush quote sink order w.processor s).err ≡ none
      → (new : List AssembledExecution) × Wrote sink s
          (records new)
          (flush quote sink order w.processor s).sink_state
        × Reach quote Admitted w
            (world (flush quote sink order w.processor s).processor idle (new ++ w.written))
        × All IsKeyed (new ++ w.written)
        × NeverReopened (new ++ w.written)
        × IsConsumed (join_key ex.trace_id ex.span_id) (new ++ w.written)
  flush_writes_received v w ex signal now order s r n q d i f c e =
      let at : Reach quote Admitted (start max_wait) (world w.processor idle w.written) =
        subst (λ z. Reach quote Admitted (start max_wait) (world w.processor z w.written)) i r in
      let key = join_key ex.trace_id ex.span_id in
      let (new, end, t, wrote, consumed) =
        flush-IsConsumed order w.processor s w.written at
          (λ k. (idle_is_quiet quote Admitted max_wait w r k d i).0) f c e in
      (
        new,
        wrote,
        subst
            (λ z.
              Reach quote Admitted (world w.processor z w.written)
                (world (flush quote sink order w.processor s).processor idle (new ++ w.written)))
            (sym i) t,
        written-IsKeyed quote Admitted max_wait _ end,
        no_execution_twice quote Admitted max_wait _ end,
        consumed key
            (kept-Reach quote Admitted key (received-kept quote ex signal now v.processor n) q),
      )
