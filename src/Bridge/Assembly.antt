-- ===== src/Bridge/Assembly.antt =====
-- Assembly: what is ready, which spans are claimed as parents, the snapshot of one execution, its
-- emission, and the rollback of what was not written.
use evidra_agentgateway_brid.Prelude.{
  ℕ, ◌+◌, String, Bool, true, false, ◌&&◌, ◌||◌, not, Option, none, some, List, [], ◌∷◌, ◌++◌, ◌==◌,
  length, ltb, if◌then◌else◌,
}
use evidra_agentgateway_brid.Prelude.Int.{is_zero, ltb_ℤ}
use evidra_agentgateway_brid.Text.{◌⧺◌}
use evidra_agentgateway_brid.Text.Order.{str_leb}
use evidra_agentgateway_brid.Text.Sort.{sort_strings}
use evidra_agentgateway_brid.Dict.{Dict, get, put, delete, has, counter}
use evidra_agentgateway_brid.Observation.{
  Correlation, correlated, unattributed, ambiguous, Time, Execution,
}
use evidra_agentgateway_brid.Bridge.Merge.{merge, member}
use evidra_agentgateway_brid.Bridge.State.{Stats, Buffers, Processor, span_kind_client}

pub record AssembledExecution : Type 0 where
  pub key : String
  pub consumed_keys : List String
  pub ex : Execution
  pub both : Bool
  pub loggy : Bool
  pub parents_suppressed : ℕ

-- The keys whose wait has elapsed, before they are sorted.
unfoldable pub ready_from : Time → Dict Time → List String
ready_from cutoff [] = []
ready_from cutoff ((key, seen) ∷ rest) =
    let others = ready_from cutoff rest in
    if is_zero cutoff || ltb_ℤ seen cutoff then key ∷ others else others

unfoldable pub ready_keys : Time → Processor → List String
unfolding ready_from
ready_keys cutoff p = sort_strings (ready_from cutoff p.active.first_seen)

-- `span.SpanKind == normalize.SpanKindClient && span.ParentSpanID != ""`
unfoldable pub names_parent : Execution → Bool
names_parent span = span.span_kind == span_kind_client && not (span.parent_span_id == "")

-- `span.TraceID+"/"+span.ParentSpanID`
unfoldable pub parent_key : Execution → String
parent_key span = span.trace_id ⧺ ("/" ⧺ span.parent_span_id)

-- The loop that fills `childOf`, over the spans in the order of the visit; a later child of the same
-- parent replaces an earlier one.
unfoldable pub children : List (String × Execution) → Dict String → Dict String
unfolding names_parent parent_key
children [] child_of = child_of
children ((key, span) ∷ rest) child_of =
    children rest (if names_parent span then put (parent_key span) key child_of else child_of)

-- `childKey, claimed := childOf[key]; claimed && childKey != key`
unfoldable pub is_claimed : Dict String → String → Bool
is_claimed child_of key = elim (get key child_of) [ none ↦ false | some child ↦ not (child == key) ]

-- Setting a list of keys in a `map[string]bool`, and deleting them.
unfoldable pub set_all : List String → Dict Bool → Dict Bool
set_all [] d = d
set_all (key ∷ rest) d = set_all rest (put key true d)

module _ (quote : String → String) where
  -- `if ok { ex = merge(ex, other) }`
  unfoldable pub merge_found : Execution → Option Execution → Execution
  merge_found ex none = ex
  merge_found ex (some other) = merge quote ex other

  unfoldable pub merge_parent : Buffers → String → AssembledExecution → AssembledExecution
  unfolding merge_found
  merge_parent b parent a = record a {
    ex = merge_found (merge_found a.ex (get parent b.spans)) (get parent b.logs);
    parents_suppressed = if has parent b.spans then 1 else a.parents_suppressed;
    consumed_keys =
        if has parent b.spans || has parent b.logs
        then a.consumed_keys ++ parent ∷ []
        else a.consumed_keys;
  }

  unfoldable pub assemble_log : String → Option Execution → Option AssembledExecution
  assemble_log key none = none
  assemble_log key (some log) = some (record {
    key = key;
    consumed_keys = key ∷ [];
    ex = log;
    both = false;
    loggy = true;
    parents_suppressed = 0;
  })

  -- The snapshot of a key with a span, before the log of the key is merged.
  unfoldable pub assemble_span : Buffers → String → Execution → Bool → AssembledExecution
  unfolding merge_parent names_parent parent_key
  assemble_span b key span both =
      let a : AssembledExecution = record {
        key = key;
        consumed_keys = key ∷ [];
        ex = span;
        both = both;
        loggy = false;
        parents_suppressed = 0;
      } in
      if names_parent span then merge_parent b (parent_key span) a else a

  unfoldable pub assemble_key : Buffers → String → Option AssembledExecution
  unfolding assemble_log assemble_span
  assemble_key b key = elim (get key b.spans) [
    | none ↦ assemble_log key (get key b.logs)
    | some span ↦
        let a = assemble_span b key span (has key b.logs) in
        some (record a { ex = merge_found a.ex (get key b.logs) })
  ]

  -- The loop over the ready keys: claimed keys are left to their child.
  unfoldable pub snapshots : Buffers → Dict String → List String → List AssembledExecution
  unfolding is_claimed
  snapshots b child_of [] = []
  snapshots b child_of (key ∷ rest) =
      let others = snapshots b child_of rest in
      if is_claimed child_of key
      then others
      else elim (assemble_key b key) [ none ↦ others | some a ↦ a ∷ others ]

-- `sort.Slice(out, …)` by the key; the keys of the snapshots differ.
unfoldable pub insert_by_key :
    AssembledExecution → List AssembledExecution → List AssembledExecution
insert_by_key a [] = a ∷ []
insert_by_key a (b ∷ l) = if str_leb a.key b.key then a ∷ b ∷ l else b ∷ insert_by_key a l

unfoldable pub sort_by_key : List AssembledExecution → List AssembledExecution
unfolding insert_by_key
sort_by_key [] = []
sort_by_key (a ∷ l) = insert_by_key a (sort_by_key l)

-- `p.inFlight[key] = true` for every key that a snapshot consumes.
unfoldable pub reserve : List AssembledExecution → Dict Bool → Dict Bool
unfolding set_all
reserve [] d = d
reserve (a ∷ rest) d = reserve rest (set_all a.consumed_keys d)

-- `discardPending`
unfoldable pub discard_pending : String → Processor → Processor
discard_pending key p = record p {
  pending = record {
    spans = delete key p.pending.spans;
    logs = delete key p.pending.logs;
    first_seen = delete key p.pending.first_seen;
  };
  pending_signals = delete key p.pending_signals;
}

-- One round of the loop that acknowledges a written record. Signals that came in meanwhile are
-- dropped and counted.
unfoldable pub acknowledge_key : String → Processor → Processor
unfolding discard_pending
acknowledge_key key p =
    let q = discard_pending key p in
    record q {
      active = record {
        spans = delete key p.active.spans;
        logs = delete key p.active.logs;
        first_seen = delete key p.active.first_seen;
      };
      in_flight = delete key p.in_flight;
      emitted = put key true p.emitted;
      stats = record p.stats {
        late_signals_ignored = p.stats.late_signals_ignored + counter key p.pending_signals;
      };
    }

unfoldable pub acknowledge_keys : List String → Processor → Processor
unfolding acknowledge_key
acknowledge_keys [] p = p
acknowledge_keys (key ∷ rest) p = acknowledge_keys rest (acknowledge_key key p)

-- `switch a.ex.Correlation { … }`
unfoldable pub count_correlation : Correlation → Stats → Stats
count_correlation correlated s = record s { correlated = s.correlated + 1 }
count_correlation ambiguous s = record s { ambiguous = s.ambiguous + 1 }
count_correlation unattributed s = record s { unattributed = s.unattributed + 1 }

-- `switch { case a.both || len(a.ex.SeenFrom) > 1: … }`
unfoldable pub count_kind : AssembledExecution → Stats → Stats
count_kind a s =
    if a.both || ltb 1 (length a.ex.seen_from)
    then record s { emitted_merged = s.emitted_merged + 1 }
    else if a.loggy
    then record s { emitted_log_only = s.emitted_log_only + 1 }
    else record s { emitted_span_only = s.emitted_span_only + 1 }

unfoldable pub count_emitted : AssembledExecution → Stats → Stats
unfolding count_correlation count_kind
count_emitted a s =
    let t =
      count_correlation a.ex.correlation
        (record s { parents_suppressed = s.parents_suppressed + a.parents_suppressed }) in
    count_kind a (record t { emitted = t.emitted + 1 })

-- `emit` behind a successful write.
unfoldable pub acknowledge : AssembledExecution → Processor → Processor
unfolding acknowledge_keys count_emitted
acknowledge a p =
    let q = acknowledge_keys a.consumed_keys p in record q { stats = count_emitted a q.stats }

-- `emit` behind a failed write.
unfoldable pub count_failure : Processor → Processor
count_failure p = record p {
  stats = record p.stats { sink_write_failures = p.stats.sink_write_failures + 1 };
}

module _ (quote : String → String) where
  -- The pending signals of a key, folded back into a map of the active generation.
  unfoldable pub fold_back : String → Dict Execution → Dict Execution → Dict Execution
  fold_back key pending active = elim (get key pending) [
    | none ↦ active
    | some ex ↦
        put key (elim (get key active) [ none ↦ ex | some base ↦ merge quote base ex ]) active
  ]

  unfoldable pub merge_pending_into_active : String → Processor → Processor
  unfolding fold_back
  merge_pending_into_active key p = elim (get key p.pending.first_seen) [
    | none ↦ p
    | some seen ↦ record p {
      active = record {
        spans = fold_back key p.pending.spans p.active.spans;
        logs = fold_back key p.pending.logs p.active.logs;
        first_seen =
            if has key p.active.first_seen
            then p.active.first_seen
            else put key seen p.active.first_seen;
      };
      pending = record {
        spans = delete key p.pending.spans;
        logs = delete key p.pending.logs;
        first_seen = delete key p.pending.first_seen;
      };
      pending_signals = delete key p.pending_signals;
    }
  ]

  unfoldable pub restore_key : String → Processor → Processor
  unfolding merge_pending_into_active
  restore_key key p =
      let q = merge_pending_into_active key p in record q { in_flight = delete key q.in_flight }

  -- The inner loop of `restoreReserved`, with the set `restored`.
  unfoldable pub restore_keys : List String → List String → Processor → List String × Processor
  unfolding restore_key member
  restore_keys [] restored p = (restored, p)
  restore_keys (key ∷ rest) restored p =
      if member key restored
      then restore_keys rest restored p
      else restore_keys rest (key ∷ restored) (restore_key key p)

  unfoldable pub restore_from : List AssembledExecution → List String → Processor → Processor
  unfolding restore_keys
  restore_from [] restored p = p
  restore_from (a ∷ rest) restored p =
      let (restored', q) = restore_keys a.consumed_keys restored p in restore_from rest restored' q

  unfoldable pub restore_reserved : List AssembledExecution → Processor → Processor
  unfolding restore_from
  restore_reserved records p = restore_from records [] p
