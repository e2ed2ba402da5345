-- ===== src/Bridge/Processor.antt =====
-- `assemble`, `emit` and `Flush`: the sink is a parameter with a state of its own.
pub mod Emit
pub mod Interleaving
pub mod Complete
use evidra_agentgateway_brid.Prelude.{
  ℕ, String, Bool, true, false, Option, none, some, List, [], ◌∷◌, if◌then◌else◌,
}
use evidra_agentgateway_brid.Prelude.Int.{ℤ, pos, ◌-ℤ◌, leb_ℤ}
use evidra_agentgateway_brid.Text.{◌⧺◌}
use evidra_agentgateway_brid.Dict.{Dict, flag}
use evidra_agentgateway_brid.Observation.{Time, Execution}
use evidra_agentgateway_brid.Bridge.State.{Buffers, Processor}
use evidra_agentgateway_brid.Bridge.Assembly.{
  AssembledExecution, ready_keys, children, snapshots, sort_by_key, reserve, acknowledge,
  count_failure, restore_reserved,
}

-- The interface `Sink`: `none` is a nil error. The context is part of the sink's state.
pub record Sink (S : Type 0) : Type 0 where
  pub write : S → Execution → Option String × S

-- The result of a method of the processor: the error, the processor and the sink's state.
pub record Outcome (S : Type 0) : Type 0 where
  pub err : Option String
  pub processor : Processor
  pub sink_state : S

module _ {S : Type 0} where
  -- `if sink != nil { … sink.Write … }`
  unfoldable pub write_to : Option (Sink S) → S → Execution → Option String × S
  write_to none s ex = (none, s)
  write_to (some sink) s ex = sink.write s ex

  -- `emit` behind the write, with the write's result.
  unfoldable pub settle : AssembledExecution → Processor → Option String × S → Outcome S
  settle a p (none, s) = record { err = none; processor = acknowledge a p; sink_state = s }
  settle a p (some e, s) = record {
    err = some ("sink: " ⧺ e);
    processor = count_failure p;
    sink_state = s;
  }

  unfoldable pub emit : Option (Sink S) → AssembledExecution → Processor → S → Outcome S
  unfolding settle write_to
  emit sink a p s =
      if flag a.key p.emitted
      then record { err = none; processor = p; sink_state = s }
      else settle a p (write_to sink s a.ex)

module _ (quote : String → String) {S : Type 0} (sink : Option (Sink S)) where
  -- The loop over the snapshots; an error restores the failed one and those behind it.
  unfoldable pub emit_all : List AssembledExecution → Processor → S → Outcome S
  emit_all [] p s = record { err = none; processor = p; sink_state = s }
  emit_all (a ∷ rest) p s =
      let o = emit sink a p s in
      elim o.err [
        | none ↦ emit_all rest o.processor o.sink_state
        | some e ↦ record o { processor = restore_reserved quote (a ∷ rest) o.processor }
      ]

-- The snapshots of one assembly, in the order in which they are written. `order` is the order in which
-- the range over the spans visits them.
unfoldable pub assemble_out :
    (String → String) → Time → List (String × Execution) → Processor → List AssembledExecution
assemble_out quote cutoff order p =
    sort_by_key (snapshots quote p.active (children order []) (ready_keys cutoff p))

-- The snapshots' keys marked as in flight.
unfoldable pub reserve_out : List AssembledExecution → Processor → Processor
reserve_out out p = record p { in_flight = reserve out p.in_flight }

module _ (quote : String → String) {S : Type 0} (sink : Option (Sink S)) where
  -- An early return where nothing is ready leaves the processor as the loop over no snapshot does.
  unfoldable pub assemble : Time → List (String × Execution) → Processor → S → Outcome S
  assemble cutoff order p s = elim (ready_keys cutoff p) [
    | [] ↦ record { err = none; processor = p; sink_state = s }
    | key ∷ rest ↦
        let out = assemble_out quote cutoff order p in emit_all quote sink out (reserve_out out p) s
  ]

  -- A zero cutoff assembles everything.
  unfoldable pub flush : List (String × Execution) → Processor → S → Outcome S
  unfolding assemble
  flush = assemble (pos 0)

  -- `assembleExpired`, with the time that the clock gives.
  unfoldable pub assemble_expired : Time → List (String × Execution) → Processor → S → Outcome S
  unfolding assemble
  assemble_expired now order p s =
      if leb_ℤ p.max_wait (pos 0)
      then record { err = none; processor = p; sink_state = s }
      else assemble (now -ℤ p.max_wait) order p s
