-- ===== src/Bridge/State.antt =====
-- The state of `Processor`, and `buffer`, which takes in one normalized signal.
use evidra_agentgateway_brid.Prelude.{
  ℕ, ◌+◌, String, Bool, ◌||◌, none, some, List, [], ◌∷◌, ◌==◌, length, if◌then◌else◌,
}
use evidra_agentgateway_brid.Prelude.Int.{ℤ}
use evidra_agentgateway_brid.Dict.{Dict, get, put, has, flag, counter}
use evidra_agentgateway_brid.Observation.{Time, Execution, join_key}
use evidra_agentgateway_brid.Bridge.Merge.{merge}

-- `normalize.SignalLogs` and `normalize.SignalTraces`
abbrev pub signal_logs : String
signal_logs = "logs"

abbrev pub signal_traces : String
signal_traces = "traces"

abbrev pub span_kind_client : String
span_kind_client = "client"

pub record Stats : Type 0 where
  pub log_records_seen : ℕ
  pub spans_seen : ℕ
  pub tool_calls_ignored : ℕ
  pub emitted : ℕ
  pub emitted_merged : ℕ
  pub emitted_log_only : ℕ
  pub emitted_span_only : ℕ
  pub sink_write_failures : ℕ
  pub late_signals_ignored : ℕ
  pub unjoinable_no_span : ℕ
  pub parents_suppressed : ℕ
  pub correlated : ℕ
  pub unattributed : ℕ
  pub ambiguous : ℕ
  pub still_buffered : ℕ

-- The three maps of one generation of signals: `spans`, `logs` and `firstSeen`, or the same with
-- `pending` in front.
pub record Buffers : Type 0 where
  pub spans : Dict Execution
  pub logs : Dict Execution
  pub first_seen : Dict Time

pub record Processor : Type 0 where
  pub max_wait : ℤ
  pub observer_id : String
  pub observer_version : String
  pub active : Buffers
  pub pending : Buffers
  pub pending_signals : Dict ℕ
  pub in_flight : Dict Bool
  pub emitted : Dict Bool
  pub stats : Stats

abbrev pub no_buffers : Buffers
no_buffers = record { spans = []; logs = []; first_seen = [] }

abbrev pub no_stats : Stats
no_stats = record {
  log_records_seen = 0;
  spans_seen = 0;
  tool_calls_ignored = 0;
  emitted = 0;
  emitted_merged = 0;
  emitted_log_only = 0;
  emitted_span_only = 0;
  sink_write_failures = 0;
  late_signals_ignored = 0;
  unjoinable_no_span = 0;
  parents_suppressed = 0;
  correlated = 0;
  unattributed = 0;
  ambiguous = 0;
  still_buffered = 0;
}

unfoldable pub new_processor : ℤ → Processor
new_processor max_wait = record {
  max_wait = max_wait;
  observer_id = "";
  observer_version = "";
  active = no_buffers;
  pending = no_buffers;
  pending_signals = [];
  in_flight = [];
  emitted = [];
  stats = no_stats;
}

unfoldable pub set_observer : String → String → Processor → Processor
set_observer id version p = record p { observer_id = id; observer_version = version }

-- How many of these keys are not buffered in the active generation.
unfoldable pub count_inactive : List (String × Time) → Dict Time → ℕ
count_inactive [] active = 0
count_inactive ((key, seen) ∷ rest) active =
    if has key active then count_inactive rest active else count_inactive rest active + 1

-- `Processor.Stats`
unfoldable pub stats_of : Processor → Stats
unfolding count_inactive
stats_of p = record p.stats {
  still_buffered =
      length p.active.first_seen + count_inactive p.pending.first_seen p.active.first_seen;
}

unfoldable pub has_pending : String → Processor → Bool
has_pending key p = has key p.pending.first_seen

-- `if p.observerID != "" { … }` of `buffer`
unfoldable pub stamp : Processor → Execution → Execution
stamp p ex = if p.observer_id == "" then ex else record ex {
  source = record ex.source { observer_id = p.observer_id; observer_version = p.observer_version };
}

module _ (quote : String → String) where
  -- `if prev, ok := dst[key]; ok { ex = merge(prev, ex) }; dst[key] = ex`
  unfoldable pub merge_into : String → Execution → Dict Execution → Dict Execution
  merge_into key ex dst =
      put key (elim (get key dst) [ none ↦ ex | some prev ↦ merge quote prev ex ]) dst

  unfoldable pub store : String → Execution → String → Time → Buffers → Buffers
  unfolding merge_into
  store key ex signal now b = record {
    spans = if signal == signal_logs then b.spans else merge_into key ex b.spans;
    logs = if signal == signal_logs then merge_into key ex b.logs else b.logs;
    first_seen = if has key b.first_seen then b.first_seen else put key now b.first_seen;
  }

  -- `buffer` behind its first test: the key is not empty.
  unfoldable pub buffer_key : String → Execution → String → Time → Processor → Processor
  unfolding stamp has_pending
  buffer_key key ex signal now p =
      if flag key p.emitted
      then record p {
        stats = record p.stats { late_signals_ignored = p.stats.late_signals_ignored + 1 };
      }
      else if flag key p.in_flight || has_pending key p
      then record p {
        pending = store key (stamp p ex) signal now p.pending;
        pending_signals = put key (counter key p.pending_signals + 1) p.pending_signals;
      }
      else record p { active = store key (stamp p ex) signal now p.active }

  -- `now` is what the clock gives if the key is new.
  unfoldable pub buffer : Execution → String → Time → Processor → Processor
  unfolding buffer_key
  buffer ex signal now p =
      if join_key ex.trace_id ex.span_id == ""
      then record p {
        stats = record p.stats { unjoinable_no_span = p.stats.unjoinable_no_span + 1 };
      }
      else buffer_key (join_key ex.trace_id ex.span_id) ex signal now p
