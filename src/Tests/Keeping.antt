-- ===== src/Tests/Keeping.antt =====
-- What stays buffered.
use evidra_agentgateway_brid.Prelude.{
  String, eq_iff, ◌↔◌, ◌≢◌, sym, ap, ◌∙◌, ◌≡◌, refl, true, ◌||◌, ◌⊎◌, inl, inr, [], ◌∷◌, Elem,
}
use evidra_agentgateway_brid.Prelude.Int.{pos}
use evidra_agentgateway_brid.Observation.{Execution, join_key}
use evidra_agentgateway_brid.Bridge.Merge.Attribution.{IsHonestRecord}
use evidra_agentgateway_brid.Bridge.State.{Processor, new_processor, buffer}
use evidra_agentgateway_brid.Bridge.Assembly.{AssembledExecution, parent_key}
use evidra_agentgateway_brid.Bridge.Processor.{assemble_out}
use evidra_agentgateway_brid.Bridge.Processor.Complete.Taken.{
  IsNamed, HasNoSelf, assemble_out-IsNamed_iff,
}
use evidra_agentgateway_brid.Bridge.Processor.Interleaving.Coherent.{Visits, Visits-self}
use evidra_agentgateway_brid.Dict.{Dict, get-Elem}
use evidra_agentgateway_brid.Bridge.Processor.Interleaving.{
  begin, claim, succeed, finish, Reach, here, next,
}
use evidra_agentgateway_brid.Bridge.Processor.Interleaving.Held.{held}
use evidra_agentgateway_brid.Bridge.Processor.Interleaving.Retention.{
  IsConsumed, received_never_lost,
}
use evidra_agentgateway_brid.Bridge.Processor.Interleaving.Once.{start}
use evidra_agentgateway_brid.Tests.Values.{quote, client_span, access_log}
use evidra_agentgateway_brid.Tests.Runs.{run, ended, log_snapshot, access_log-IsHonest}

-- Two client spans, each the parent of the other.
abbrev cycle : Processor
cycle =
    buffer quote (record client_span { span_id = "s1"; parent_span_id = "s2" }) "traces" (pos 7)
      (buffer quote client_span "traces" (pos 6) (new_processor (pos 10)))

apart : ◌≢◌ {A = String} "t1/s1" "t1/s2"
apart e = cc ((eq_iff "t1/s1" "t1/s2").1 e)

abbrev cycle_spans : Dict Execution
cycle_spans = cycle.active.spans

cycle-visited : Visits cycle_spans cycle_spans
unfolding run
cycle-visited =
    Visits-self cycle_spans ((λ m. elim m [ inl e ↦ apart e | inr n ↦ n ]), ((λ m. m), tt))

-- The name of the parent is not the key.
names_other :
    (k c : String) (ex sp : Execution)
    → parent_key ex ≢ k
    → ◌≡◌ {A = String × Execution} (c, sp) (k, ex)
    → parent_key sp ≢ c
names_other k c ex sp n q p = n (sym (ap (λ z. parent_key z.1) q) ∙ (p ∙ ap (λ z. z.0) q))

cycle-HasNoSelf : HasNoSelf cycle.active
unfolding run parent_key
cycle-HasNoSelf c sp e n p = elim (get-Elem cycle_spans c sp e) [
  | inl q ↦ names_other _ c _ sp (λ e. apart (sym e)) q p
  | inr (inl q) ↦ names_other _ c _ sp apart q p
  | inr (inr m) ↦ m
]

assemble_out-IsNamed_iff_example :
    ((a : AssembledExecution) × Elem a (assemble_out quote (pos 0) cycle_spans cycle)
      × (a.key ≡ "t1/s1"))
    ↔ ¬ IsNamed cycle.active "t1/s1"
unfolding run
assemble_out-IsNamed_iff_example =
    assemble_out-IsNamed_iff quote (pos 0) cycle_spans cycle "t1/s1" cycle-visited cycle-HasNoSelf
      refl (inl refl)

-- From the moment when the log is buffered to the one when its record is written.
rest_of_run :
    Reach quote IsHonestRecord
      (record (start (pos 10)) {
        processor = buffer quote access_log "logs" (pos 6) (new_processor (pos 10));
      })
      ended
unfolding run
rest_of_run =
    next
      (next (next (next here (claim (pos 20) [] refl refl)) (begin log_snapshot [] refl refl refl))
        (succeed log_snapshot [] refl refl))
      (finish refl refl)

received_never_lost_example :
    IsConsumed "t1/s1" (log_snapshot ∷ [])
    ⊎ ((held "t1/s1" ended.processor.active || held "t1/s1" ended.processor.pending) ≡ true)
unfolding join_key run
received_never_lost_example =
    received_never_lost quote IsHonestRecord (pos 10) (start (pos 10)) ended access_log "logs"
      (pos 6) here access_log-IsHonest (cc) rest_of_run
