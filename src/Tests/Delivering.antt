-- ===== src/Tests/Delivering.antt =====
-- The whole process at concrete requests: what they carried is in the file.
use mathlib.Core.Path.{subst}
use mathlib.Core.Option.{none-ne-some}
use evidra_agentgateway_brid.Prelude.{
  String, ◌≡◌, ◌≢◌, refl, sym, ◌∙◌, inr, none, List, [], ◌∷◌, Elem, Distinct,
}
use evidra_agentgateway_brid.Dict.{Dict, get, keys, get-put, put-Distinct}
use evidra_agentgateway_brid.Observation.{Execution, join_key}
use evidra_agentgateway_brid.Bridge.Assembly.{AssembledExecution}
use evidra_agentgateway_brid.Bridge.Processor.Complete.Snapshots.{HasNoChain}
use evidra_agentgateway_brid.Bridge.Processor.Interleaving.Coherent.{Visits-self}
use evidra_agentgateway_brid.Bridge.Processor.Interleaving.Retention.{IsConsumed}
use evidra_agentgateway_brid.Sink.{Jsonl, Bytes}
use evidra_agentgateway_brid.Sink.Opening.{new_jsonl}
use evidra_agentgateway_brid.Service.History.{IsHistory}
use evidra_agentgateway_brid.Server.{Request}
use evidra_agentgateway_brid.Server.Calls.{VisitsAll}
use evidra_agentgateway_brid.Server.Received.{Carries}
use evidra_agentgateway_brid.Startup.Whole.{last_served}
use evidra_agentgateway_brid.Startup.Delivery.{run-delivers}
use evidra_agentgateway_brid.Tests.Values.{quote}
use evidra_agentgateway_brid.Tests.Telemetry.{whole}
use evidra_agentgateway_brid.Tests.Serving.{
  paper-laws, marshal, visited, platform, requests, fs, getenv, in_time, config, sink, last,
  serving,
}

visited-Distinct : (spans : Dict Execution) → Distinct (keys (visited spans))
unfolding visited
visited-Distinct [] = tt
visited-Distinct ((k, sp) ∷ spans) = put-Distinct k sp (visited spans) (visited-Distinct spans)

get-visited : (spans : Dict Execution) (key : String) → get key (visited spans) ≡ get key spans
unfolding visited get
get-visited [] key = refl
get-visited ((k, sp) ∷ spans) key =
    rw (get-put k key sp (visited spans), get-visited spans key) refl

platform-VisitsAll : VisitsAll whole quote platform
platform-VisitsAll spans n k sp =
    let (there, back) = Visits-self (visited spans) (visited-Distinct spans) k sp in
    (λ e. there (get-visited spans k ∙ e), λ m. sym (get-visited spans k) ∙ back m)

abbrev order_of : Jsonl Bytes → List (String × Execution)
order_of out =
    visited
      (last_served whole quote platform requests none in_time tt 5 config
        out).service.processor.active.spans

sink-HasNoChain : HasNoChain (order_of sink)
unfolding serving
sink-HasNoChain key c e = absurd (none-ne-some c e)

opened-HasNoChain :
    (out : Jsonl Bytes)
    → (new_jsonl fs config.observations_path tt).0 ≡ inr out
    → HasNoChain (order_of out)
unfolding serving
opened-HasNoChain out m =
    let same : sink ≡ out = cc m in subst (λ o. HasNoChain (order_of o)) same sink-HasNoChain

run-delivers_example :
    (out : Jsonl Bytes) × ((new_jsonl fs config.observations_path tt).0 ≡ inr out)
    × ((written : List AssembledExecution) × IsHistory quote marshal
          (λ f. f)
          config.merge_wait
          out.f
          last.service
          written
        × ((r : Request _) (ex : Execution)
            → Elem r requests
            → Carries whole quote platform r ex
            → join_key ex.trace_id ex.span_id ≢ ""
            → IsConsumed (join_key ex.trace_id ex.span_id) written))
unfolding serving
run-delivers_example =
    run-delivers whole quote platform platform-VisitsAll (λ f. f) paper-laws requests none in_time
      tt 5 fs getenv (λ s. none) (λ addr. none) [] tt last refl refl opened-HasNoChain
