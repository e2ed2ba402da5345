-- ===== src/Tests/Flushing.antt =====
-- A log and a client span of one call, buffered one after the other, and the flush of both.
use evidra_agentgateway_brid.Prelude.{
  String, ◌≡◌, refl, false, none, List, [], ◌⊎◌, some, inl, inr, text_cases, ◌++◌, All,
}
use mathlib.Core.Option.{some-injective, none-ne-some}
use evidra_agentgateway_brid.Text.{◌⧺◌}
use evidra_agentgateway_brid.Prelude.Int.{pos}
use evidra_agentgateway_brid.Dict.{get, has, flag}
use evidra_agentgateway_brid.Observation.{Execution}
use evidra_agentgateway_brid.Bridge.Merge.Attribution.{IsHonestRecord}
use evidra_agentgateway_brid.Bridge.State.{new_processor, buffer}
use evidra_agentgateway_brid.Bridge.Assembly.{is_claimed}
use evidra_agentgateway_brid.Bridge.Processor.{flush}
use evidra_agentgateway_brid.Bridge.Processor.Complete.{IsGone, HasRefused, flush_leaves_nothing}
use evidra_agentgateway_brid.Bridge.Processor.Complete.Snapshots.{HasNoChain}
use evidra_agentgateway_brid.Bridge.Processor.Complete.Everything.{flush_writes_received}
use evidra_agentgateway_brid.Bridge.Processor.Interleaving.Retention.{IsConsumed}
use evidra_agentgateway_brid.Bridge.Processor.Interleaving.Sequential.{world, records, Wrote}
use evidra_agentgateway_brid.Bridge.Processor.Interleaving.Keyed.{IsKeyed}
use evidra_agentgateway_brid.Bridge.Assembly.{AssembledExecution}
use evidra_agentgateway_brid.Bridge.Processor.Interleaving.{World, idle, receive, Reach, here, next}
use evidra_agentgateway_brid.Bridge.Processor.Interleaving.Coherent.{Visits, Visits-self}
use evidra_agentgateway_brid.Bridge.Processor.Interleaving.Once.{NeverReopened, start}
use evidra_agentgateway_brid.Bridge.Processor.Interleaving.Quiet.{idle_is_quiet}
use evidra_agentgateway_brid.Bridge.Processor.Interleaving.Sound.{IsSound}
use evidra_agentgateway_brid.Bridge.Processor.Interleaving.WellFormed.{processor_IsSound}
use evidra_agentgateway_brid.Tests.Values.{quote, client_span, access_log}
use evidra_agentgateway_brid.Tests.Runs.{run, keeper, access_log-IsHonest}

abbrev log_buffered : World
log_buffered = record (start (pos 10)) {
  processor = buffer quote access_log "logs" (pos 6) (new_processor (pos 10));
}

abbrev both_buffered : World
both_buffered = record (start (pos 10)) {
  processor =
      buffer quote client_span "traces" (pos 7)
        (buffer quote access_log "logs" (pos 6) (new_processor (pos 10)));
}

client_span-IsHonest : IsHonestRecord client_span
unfolding run
client_span-IsHonest = refl

abbrev arrival : Reach quote IsHonestRecord (start (pos 10)) both_buffered
arrival =
    next (next here (receive access_log "logs" (pos 6) access_log-IsHonest refl))
      (receive client_span "traces" (pos 7) client_span-IsHonest refl)

processor_IsSound_example : IsSound "t1/s2" both_buffered.processor
processor_IsSound_example =
    processor_IsSound quote IsHonestRecord (pos 10) both_buffered "t1/s2" arrival

idle_is_quiet_example :
    (flag "t1/s2" both_buffered.processor.in_flight ≡ false)
    × (has "t1/s2" both_buffered.processor.pending.spans ≡ false)
    × (has "t1/s2" both_buffered.processor.pending.logs ≡ false)
    × (has "t1/s2" both_buffered.processor.pending.first_seen ≡ false)
idle_is_quiet_example =
    idle_is_quiet quote IsHonestRecord (pos 10) both_buffered arrival "t1/s2" ((tt, tt), tt) refl

abbrev spans : List (String × Execution)
spans = both_buffered.processor.active.spans

spans-visited : Visits spans spans
unfolding run
spans-visited = Visits-self spans ((λ m. m), tt)

spans-HasNoChain : HasNoChain spans
unfolding run is_claimed
spans-HasNoChain key c e = elim (text_cases "t1/s1" key) [
  | inl (t, p) ↦ rw (← (some-injective _ _ (rw (t, get) at e))) refl
  | inr (t, n) ↦ absurd (none-ne-some c (rw (t, get) at e))
]

flush_leaves_nothing_example :
    let o = flush quote keeper spans both_buffered.processor [] in
    ((o.err ≡ none) × ((k : String) → IsGone k o.processor))
    ⊎ ((e : String) × (o.err ≡ some ("sink: " ⧺ e)) × HasRefused quote keeper e)
flush_leaves_nothing_example =
    flush_leaves_nothing quote keeper IsHonestRecord (pos 10) both_buffered arrival spans []
      ((tt, tt), tt) refl spans-visited spans-HasNoChain

-- The client span is received where the log is buffered, and the flush writes the record of both.
flush_writes_received_example :
    (new : List AssembledExecution) × Wrote keeper []
      (records new)
      (flush quote keeper spans both_buffered.processor []).sink_state
    × Reach quote IsHonestRecord both_buffered (
        world
          (flush quote keeper spans both_buffered.processor []).processor
          idle
          (new ++ both_buffered.written))
    × All IsKeyed (new ++ both_buffered.written)
    × NeverReopened (new ++ both_buffered.written)
    × IsConsumed "t1/s2" (new ++ both_buffered.written)
unfolding run
flush_writes_received_example =
    flush_writes_received quote IsHonestRecord keeper (pos 10) log_buffered both_buffered
      client_span "traces" (pos 7) spans [] arrival (λ e. cc e) here ((tt, tt), tt) refl
      spans-visited spans-HasNoChain refl
