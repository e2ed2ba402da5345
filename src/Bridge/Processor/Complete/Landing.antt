-- ===== src/Bridge/Processor/Complete/Landing.antt =====
-- Nothing is in flight behind an assembly that ran without interruption, whatever the sink answered.
use evidra_agentgateway_brid.Prelude.{
  String, inl, inr, Option, List, [], ◌∷◌, Bool-cases, List-cases,
}
use evidra_agentgateway_brid.Prelude.Int.{pos, leb_ℤ, ◌-ℤ◌}
use evidra_agentgateway_brid.Dict.{flag}
use evidra_agentgateway_brid.Observation.{Time, Execution}
use evidra_agentgateway_brid.Bridge.State.{Processor}
use evidra_agentgateway_brid.Bridge.Assembly.{
  AssembledExecution, ready_keys, acknowledge, count_failure,
}
use evidra_agentgateway_brid.Bridge.Processor.{
  Sink, write_to, emit_all, assemble_out, reserve_out, assemble, assemble_expired,
}
use evidra_agentgateway_brid.Bridge.Processor.Emit.{
  emit_all_skip, emit_all_accepted, emit_all_failed,
}
use evidra_agentgateway_brid.Bridge.Processor.Interleaving.Sequential.{write_cases}
use evidra_agentgateway_brid.Bridge.Processor.Interleaving.Sound.{IsSound, acknowledge-IsSound}
use evidra_agentgateway_brid.Bridge.Processor.Interleaving.Reserved.{reserve_out-IsSound}
use evidra_agentgateway_brid.Bridge.Processor.Interleaving.Coherent.{Visits}
use evidra_agentgateway_brid.Bridge.Processor.Interleaving.Flight.{
  IsLanded, restore_reserved-IsLanded,
}
use evidra_agentgateway_brid.Bridge.Processor.Interleaving.Quiet.{
  IsAccounted, nothing_todo, skipped, acknowledged, claimed,
}

module _ (quote : String → String) {S : Type 0} (sink : Option (Sink S)) where
  emit_all-IsLanded :
      (l : List AssembledExecution) (p : Processor) (s : S)
      → ((k : String) → IsSound k p)
      → IsAccounted p l
      → (k : String) → IsLanded (emit_all quote sink l p s).processor k
  emit_all-IsLanded [] p s h d k =
      unfold emit_all in elim (d.in_flight k) [ inl n ↦ absurd n | inr f ↦ f ]
  emit_all-IsLanded (a ∷ rest) p s h d k = elim (Bool-cases (flag a.key p.emitted)) [
    | inl e ↦
        rw (emit_all_skip quote sink a rest p s e)
          (emit_all-IsLanded rest p s h (skipped p a rest h e d) k)
    | inr e ↦ elim (write_cases (write_to sink s a.ex)) [
      | inl (t, w) ↦ rw (emit_all_accepted quote sink a rest p s t e w) (
          emit_all-IsLanded rest (acknowledge a p) t (λ j. acknowledge-IsSound a j p (h j))
            (acknowledged p a rest d) k)
      | inr (x, t, w) ↦ rw (emit_all_failed quote sink a rest p s x t e w) (
          restore_reserved-IsLanded quote (a ∷ rest) (count_failure p) k
            (unfold count_failure in d.in_flight k))
    ]
  ]

  pub assemble-IsLanded :
      (cutoff : Time) (order : List (String × Execution)) (p : Processor) (s : S)
      → ((k : String) → IsSound k p)
      → ((k : String) → IsLanded p k)
      → Visits order p.active.spans
      → (k : String) → IsLanded (assemble quote sink cutoff order p s).processor k
  unfolding assemble
  assemble-IsLanded cutoff order p s h l v k = elim (List-cases (ready_keys cutoff p)) [
    | inl e ↦ rw (e, assemble) (l k)
    | inr (key, rest, e) ↦
        let out = assemble_out quote cutoff order p in
        rw (e, assemble)
          (emit_all-IsLanded out (reserve_out out p) s
            (λ j. reserve_out-IsSound quote cutoff order j p (h j))
            (claimed quote cutoff order p h v (nothing_todo p l)) k)
  ]

  pub assemble_expired-IsLanded :
      (now : Time) (order : List (String × Execution)) (p : Processor) (s : S)
      → ((k : String) → IsSound k p)
      → ((k : String) → IsLanded p k)
      → Visits order p.active.spans
      → (k : String) → IsLanded (assemble_expired quote sink now order p s).processor k
  unfolding assemble_expired
  assemble_expired-IsLanded now order p s h l v k = elim (Bool-cases (leb_ℤ p.max_wait (pos 0))) [
    | inl e ↦ rw e (l k)
    | inr e ↦ rw e (assemble-IsLanded (now -ℤ p.max_wait) order p s h l v k)
  ]
