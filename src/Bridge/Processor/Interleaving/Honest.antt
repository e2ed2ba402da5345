-- ===== src/Bridge/Processor/Interleaving/Honest.antt =====
-- Every record that the sink accepts states its attribution honestly.
use evidra_agentgateway_brid.Prelude.{String, All}
use evidra_agentgateway_brid.Prelude.Int.{ℤ}
use evidra_agentgateway_brid.Observation.{Execution}
use evidra_agentgateway_brid.Bridge.Merge.Attribution.{IsHonestRecord, merge-attribution}
use evidra_agentgateway_brid.Bridge.Processor.Interleaving.{World, Reach}
use evidra_agentgateway_brid.Bridge.Processor.Interleaving.Keeps.{assemble_out-SnapshotsHold}
use evidra_agentgateway_brid.Bridge.Processor.Interleaving.Everywhere.{written_everywhere}
use evidra_agentgateway_brid.Bridge.Processor.Interleaving.Once.{start}

-- If every normalized signal that arrives is honest about its operation id, so is every record that the
-- sink accepts, whatever was merged into it: it has an id exactly when it is correlated, and the id is
-- trimmed and well formed.
pub written-IsHonestRecord :
    (quote : String → String) (max_wait : ℤ) (w : World)
    → Reach quote IsHonestRecord (start max_wait) w
    → All (λ a. IsHonestRecord a.ex) w.written
written-IsHonestRecord quote max_wait w r =
    let merged : (k j : String) (a b : Execution) → _ → _ → _ =
      (λ k j a b h m. (merge-attribution quote a b h m).1) in
    written_everywhere quote IsHonestRecord (λ k ex. IsHonestRecord ex) (λ a. IsHonestRecord a.ex)
      merged (λ k s a h. h) (λ ex h n. h)
      (assemble_out-SnapshotsHold quote (λ k ex. IsHonestRecord ex) merged (λ k s a h. h)) max_wait
      w r
