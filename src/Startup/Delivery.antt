-- ===== src/Startup/Delivery.antt =====
-- The whole process: what it was sent is in its file.
use mathlib.Core.Path.{subst}
use evidra_agentgateway_brid.Prelude.{
  String, ◌≡◌, ◌≢◌, sym, ap, ◌∙◌, inr, Option, none, some, List, Elem, true,
}
use evidra_agentgateway_brid.Prelude.Int.{ℤ}
use evidra_agentgateway_brid.Observation.{Execution, join_key}
use evidra_agentgateway_brid.Telemetry.{Floats}
use evidra_agentgateway_brid.Config.{Config, load_config}
use evidra_agentgateway_brid.Bridge.Assembly.{AssembledExecution}
use evidra_agentgateway_brid.Bridge.Processor.Complete.Snapshots.{HasNoChain}
use evidra_agentgateway_brid.Bridge.Processor.Interleaving.Held.{kept}
use evidra_agentgateway_brid.Bridge.Processor.Interleaving.Retention.{IsConsumed}
use evidra_agentgateway_brid.Sink.{Bytes, Jsonl}
use evidra_agentgateway_brid.Sink.Lines.{FileLaws}
use evidra_agentgateway_brid.Sink.Opening.{FileSystem, new_jsonl}
use evidra_agentgateway_brid.Service.{Service, flush_all, answer}
use evidra_agentgateway_brid.Service.History.{IsHistory}
use evidra_agentgateway_brid.Service.Orderly.{Fits, behind}
use evidra_agentgateway_brid.Service.Delivered.{serve_all-delivers}
use evidra_agentgateway_brid.Server.{Platform, Running, Request, called}
use evidra_agentgateway_brid.Server.Calls.{Answers, VisitsAll, requests-Answers}
use evidra_agentgateway_brid.Server.Received.{Carries, requests-IsKept}
use evidra_agentgateway_brid.Startup.{drained, Drain, flush_last, first_service, run}
use evidra_agentgateway_brid.Startup.Whole.{last_served, run-flushed}

module _ (floats : Floats) (quote : String → String) {C F K : Type 0}
    (platform : Platform (floats.Double) C F K) (all : VisitsAll floats quote platform) where
  open floats use {Double}
  open platform use {file, decimal, marshal, ctx_err, visit}

  -- The file has one line for each of the records that the processor wrote, and these consume every key
  -- that the service kept.
  abbrev Delivers : (F → Bytes) → ℤ → Jsonl F → Service C F → Service C F → Type 0
  Delivers content merge_wait out v u =
      (written : List AssembledExecution) × IsHistory quote marshal content merge_wait out.f u
        written
      × ((k : String) → kept k v.processor ≡ true → IsConsumed k written)

  module _ (content : F → Bytes) (laws : FileLaws file content) where
    -- A flush of the service that reports no error and does not poison the sink delivers.
    abbrev FlushDelivers : ℤ → Jsonl F → List (String × Execution) → Service C F → Type 0
    FlushDelivers merge_wait out order v =
        Fits floats quote file decimal marshal ctx_err (flush_all order) v.processor
        → (answer floats quote file decimal marshal ctx_err (flush_all order) v).err ≡ none
        → (behind floats quote file decimal marshal ctx_err (flush_all order) v).sink.out.poisoned
          ≡ none
        → Delivers content merge_wait out v
            (behind floats quote file decimal marshal ctx_err (flush_all order) v)

    first-Delivers :
        (config : Config) (out : Jsonl F) (contexts : C) (clock : K) (s u : Running C F K)
        → Answers floats quote platform
            (first_service floats quote platform config out contexts clock)
            s
        → HasNoChain (visit s.service.processor.active.spans s.clock).0
        → flush_last floats quote platform s ≡ (none, u)
        → u.service.sink.out.poisoned ≡ none
        → Delivers content config.merge_wait out s.service u.service
    unfolding first_service flush_last called
    first-Delivers config out contexts clock s u (calls, e, orderly) c f p =
        let order = (visit s.service.processor.active.spans s.clock).0 in
        let last : behind floats quote file decimal marshal ctx_err (flush_all order) s.service
            ≡ u.service =
          ap (λ o. o.1.service) f in
        let delivers : FlushDelivers config.merge_wait out order s.service =
          subst (FlushDelivers config.merge_wait out order) (sym e) (λ fits no_err sound.
            serve_all-delivers floats quote file decimal marshal ctx_err config.merge_wait content
              laws config.observer_id config.observer_version
              (record { contexts = contexts; out = out }) calls order (orderly all) fits c no_err
              sound) in
        subst (Delivers content config.merge_wait out s.service) last (
          delivers (all s.service.processor.active.spans s.clock) (ap (λ o. o.0) f)
            (ap (λ (v : Service C F). v.sink.out.poisoned) last ∙ p))

    module _ (requests : List (Request Double)) (http_failed : Option String) (d : Drain)
        (contexts : C) (clock : K) where
      -- Whatever fails on the way: if the process exits with 0, its sink is not poisoned and no span
      -- that claims a parent is claimed itself among the spans that are buffered at the end, then
      -- behind what the file of its configuration held when it was opened it has one line for the
      -- execution of each of the records that the processor wrote on its way to its state. Each record
      -- has the key of its execution and consumes besides at most the parent that this names, and none
      -- has a key that an earlier one has consumed. Every tool call with a key that a request has
      -- carried, over HTTP or gRPC, is consumed by one of these records. The range over a map is taken
      -- to visit exactly the map's entries.
      pub run-delivers :
          {W : Type 0} (fs : FileSystem W F) (getenv : String → String)
          (parse_duration : String → Option ℤ) (listen : String → Option String)
          (args : List String) (w : W) (u : Running C F K)
          → (run floats quote platform requests http_failed d contexts clock fs getenv
              parse_duration listen args w).0
            ≡ drained 0 (some u)
          → u.service.sink.out.poisoned ≡ none
          → ((out : Jsonl F)
              → (new_jsonl fs (load_config getenv parse_duration).observations_path w).0 ≡ inr out
              → (let s =
                    last_served floats quote platform requests http_failed d contexts clock
                      (load_config getenv parse_duration)
                      out in
                  HasNoChain (visit s.service.processor.active.spans s.clock).0))
          → (let config = load_config getenv parse_duration in
              (out : Jsonl F) × ((new_jsonl fs config.observations_path w).0 ≡ inr out)
              × ((written : List AssembledExecution) × IsHistory quote marshal content
                    config.merge_wait out.f u.service written
                  × ((r : Request Double) (ex : Execution)
                      → Elem r requests
                      → Carries floats quote platform r ex
                      → join_key ex.trace_id ex.span_id ≢ ""
                      → IsConsumed (join_key ex.trace_id ex.span_id) written)))
      run-delivers fs getenv parse_duration listen args w u h p c =
          let config = load_config getenv parse_duration in
          let (out, m, x, y, z, l, f) =
            run-flushed floats quote platform requests http_failed d contexts clock fs getenv
              parse_duration listen args w u h in
          let first = first_service floats quote platform config out contexts clock in
          let s =
            last_served floats quote platform requests http_failed d contexts clock config out in
          let (written, history, consumed) =
            first-Delivers config out contexts clock s u
              (requests-Answers floats quote platform requests first) (c out m) f p in
          (
            out,
            m,
            (
              written,
              history,
              λ r ex i carried n.
                  consumed (join_key ex.trace_id ex.span_id)
                    (requests-IsKept floats quote platform ex n requests first r i carried),
            ),
          )
