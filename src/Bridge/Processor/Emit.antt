-- ===== src/Bridge/Processor/Emit.antt =====
-- The three ways in which one round of the emitting loop goes.
use evidra_agentgateway_brid.Prelude.{String, ◌≡◌, refl, true, false, Option, none, some, List, ◌∷◌}
use evidra_agentgateway_brid.Text.{◌⧺◌}
use evidra_agentgateway_brid.Dict.{flag}
use evidra_agentgateway_brid.Bridge.State.{Processor}
use evidra_agentgateway_brid.Bridge.Assembly.{
  AssembledExecution, acknowledge, count_failure, restore_reserved,
}
use evidra_agentgateway_brid.Bridge.Processor.{Sink, Outcome, write_to, settle, emit, emit_all}

module _ (quote : String → String) {S : Type 0} (sink : Option (Sink S)) (a : AssembledExecution)
    (rest : List AssembledExecution) (p : Processor) (s : S) where
  abbrev go_on : Outcome S → Outcome S
  go_on o = elim o.err [
    | none ↦ emit_all quote sink rest o.processor o.sink_state
    | some e ↦ record o { processor = restore_reserved quote (a ∷ rest) o.processor }
  ]

  emit_all-emit : emit_all quote sink (a ∷ rest) p s ≡ go_on (emit sink a p s)
  unfolding emit_all
  emit_all-emit = refl

  emit_emitted :
      flag a.key p.emitted ≡ true
      → emit sink a p s ≡ record { err = none; processor = p; sink_state = s }
  unfolding emit
  emit_emitted f = rw f

  emit_fresh : flag a.key p.emitted ≡ false → emit sink a p s ≡ settle a p (write_to sink s a.ex)
  unfolding emit
  emit_fresh f = rw f

  pub emit_all_skip :
      flag a.key p.emitted ≡ true
      → emit_all quote sink (a ∷ rest) p s ≡ emit_all quote sink rest p s
  emit_all_skip f = rw (emit_all-emit, emit_emitted f)

  pub emit_all_accepted :
      (t : S)
      → flag a.key p.emitted ≡ false
      → write_to sink s a.ex ≡ (none, t)
      → emit_all quote sink (a ∷ rest) p s ≡ emit_all quote sink rest (acknowledge a p) t
  unfolding settle
  emit_all_accepted t f w = rw (emit_all-emit, emit_fresh f, w)

  pub emit_all_failed :
      (e : String) (t : S)
      → flag a.key p.emitted ≡ false
      → write_to sink s a.ex ≡ (some e, t)
      → emit_all quote sink (a ∷ rest) p s ≡ record {
        err = some ("sink: " ⧺ e);
        processor = restore_reserved quote (a ∷ rest) (count_failure p);
        sink_state = t;
      }
  unfolding settle
  emit_all_failed e t f w = rw (emit_all-emit, emit_fresh f, w)
