-- ===== src/Startup/Whole.antt =====
-- The whole process: what its file holds when it has drained, and what its exit code means.
use mathlib.Core.Path.{subst}
use mathlib.Core.Option.{some-injective, none-ne-some}
use evidra_agentgateway_brid.Prelude.{
  ℕ, String, ◌≡◌, refl, sym, ◌∙◌, ◌⊎◌, inl, inr, Option, none, some, List, All, Bool-cases,
}
use evidra_agentgateway_brid.Prelude.Int.{ℤ}
use evidra_agentgateway_brid.Telemetry.{Floats}
use evidra_agentgateway_brid.Config.{Config, load_config}
use evidra_agentgateway_brid.Bridge.Merge.Attribution.{IsHonestRecord}
use evidra_agentgateway_brid.Bridge.Assembly.{AssembledExecution}
use evidra_agentgateway_brid.Bridge.Processor.Interleaving.Frame.{IsTally}
use evidra_agentgateway_brid.Sink.{Bytes, Jsonl}
use evidra_agentgateway_brid.Sink.Lines.{FileLaws}
use evidra_agentgateway_brid.Sink.Opening.{FileSystem, new_jsonl}
use evidra_agentgateway_brid.Service.{Service, flush_all}
use evidra_agentgateway_brid.Service.History.{IsHistory}
use evidra_agentgateway_brid.Service.Files.{serve_all-file}
use evidra_agentgateway_brid.Server.{Platform, Running, Request, serve_requests}
use evidra_agentgateway_brid.Server.Calls.{
  Answers, Answers-self, Answers-trans, called-Answers, requests-Answers,
}
use evidra_agentgateway_brid.Shutdown.{done, expired}
use evidra_agentgateway_brid.Shutdown.ExitCode.{exit_code-eq-zero_iff}
use evidra_agentgateway_brid.Startup.{
  drained, Drain, asks_version, code_of, flush_last, drain_by, first_service, run_serving,
  run_listening, run_opened, run,
}

drained-code :
    {C F K : Type 0} {a b : ℕ} {s t : Option (Running C F K)}
    → drained a s ≡ drained b t
    → (a ≡ b) × (s ≡ t)
drained-code e = (cc e, cc e)

done-value : {x y : Option String} → done x ≡ done y → x ≡ y
done-value e = cc e

both : {A B : Type 0} {o : A × B} {a : A} {b : B} → o.0 ≡ a → o.1 ≡ b → o ≡ (a, b)
both p q = λ i. (p i, q i)

module _ (floats : Floats) (quote : String → String) {C F K : Type 0}
    (platform : Platform (floats.Double) C F K) where
  open floats use {Double}
  open platform use {file, decimal, marshal, ctx_err}

  -- From the last request to the end: calls, and a last flush without error if the exit code is 0.
  abbrev Drained :
      Option String → Option String → Drain → Running C F K → ℕ → Running C F K → Type 0
  Drained ctx late d s code u =
      Answers floats quote platform s u
      × (code ≡ 0
          → (d.http_err ≡ none)
            × (d.stopped ≡ done tt)
            × (ctx ≡ none)
            × (late ≡ none)
            × (flush_last floats quote platform s ≡ (none, u)))

  flush_last-Answers :
      (s : Running C F K) → Answers floats quote platform s (flush_last floats quote platform s).1
  unfolding flush_last
  flush_last-Answers s =
      let (order, k) = platform.visit s.service.processor.active.spans s.clock in
      called-Answers floats quote platform (flush_all order) k s
        (λ a. a s.service.processor.active.spans s.clock)

  drain_by-Drained :
      (ctx late : Option String) (d : Drain) (s u : Running C F K) (code : ℕ)
      → drain_by floats quote platform ctx late d s ≡ drained code (some u)
      → Drained ctx late d s code u
  unfolding drain_by code_of
  drain_by-Drained (some e) late d s u code h =
      let (c, v) = drained-code h in
      let same = some-injective _ _ v in
      (
        subst (Answers floats quote platform s) same (Answers-self floats quote platform s),
        λ z. absurd (
            none-ne-some e (
              sym
                ((exit_code-eq-zero_iff d.http_err d.stopped (some e) (expired e) _).0 (c ∙ z)).2)),
      )
  drain_by-Drained none (some e) d s u code h = absurd (none-ne-some u (drained-code h).1)
  drain_by-Drained none none d s u code h =
      let (c, v) = drained-code h in
      let same = some-injective _ _ v in
      let o = flush_last floats quote platform s in
      (
        subst (Answers floats quote platform s) same (flush_last-Answers s),
        λ z.
            let (a, b, x, f, y) =
              (exit_code-eq-zero_iff d.http_err d.stopped none (done o.0) _).0 (c ∙ z) in
            (a, b, refl, refl, both (done-value f) same),
      )

  -- What the file of a service holds behind what it held before.
  abbrev Files : (F → Bytes) → ℤ → Jsonl F → Service C F → Type 0
  Files content merge_wait out v =
      (written : List AssembledExecution) × IsHistory quote marshal content merge_wait out.f v
        written
      × All (λ a. IsHonestRecord a.ex) written
      × IsTally written v.processor.stats

  module _ (content : F → Bytes) (laws : FileLaws file content) where
    first-Files :
        (config : Config) (out : Jsonl F) (contexts : C) (clock : K) (u : Running C F K)
        → Answers floats quote platform
            (first_service floats quote platform config out contexts clock)
            u
        → u.service.sink.out.poisoned ≡ none
        → Files content config.merge_wait out u.service
    unfolding first_service
    first-Files config out contexts clock u (calls, e, v) p =
        subst (Files content config.merge_wait out) (sym e) (
          serve_all-file floats quote file decimal marshal ctx_err content laws config.merge_wait
            config.observer_id config.observer_version (record { contexts = contexts; out = out })
            calls (subst (λ (v : Service C F). v.sink.out.poisoned ≡ none) e p))

  module _ (requests : List (Request Double)) (http_failed : Option String) (d : Drain)
      (contexts : C) (clock : K) where
    -- What has been served when the signal comes.
    abbrev pub last_served : Config → Jsonl F → Running C F K
    last_served config out =
        (serve_requests floats quote platform requests
          (first_service floats quote platform config out contexts clock)).1

    -- The process has drained to `u` with this exit code, from the sink that it opened.
    abbrev pub IsDrained : Config → Jsonl F → ℕ → Running C F K → Type 0
    IsDrained config out code u =
        Answers floats quote platform
          (first_service floats quote platform config out contexts clock) u
        × (code ≡ 0
            → (d.http_err ≡ none)
              × (d.stopped ≡ done tt)
              × (d.ctx ≡ none)
              × (d.late ≡ none)
              × (flush_last floats quote platform (last_served config out) ≡ (none, u)))

    serving-IsDrained :
        (failed : Option String) (config : Config) (out : Jsonl F) (u : Running C F K) (code : ℕ)
        → run_serving floats quote platform failed d (last_served config out)
          ≡ drained code (some u)
        → IsDrained config out code u
    unfolding run_serving
    serving-IsDrained (some e) config out u code h = absurd (cc h)
    serving-IsDrained none config out u code h =
        let (a, z) = drain_by-Drained d.ctx d.late d (last_served config out) u code h in
        (
          Answers-trans floats quote platform
              (first_service floats quote platform config out contexts clock)
              (last_served config out) u (requests-Answers floats quote platform requests _) a,
          z,
        )

    listening-IsDrained :
        (listened : Option String) (config : Config) (out : Jsonl F) (u : Running C F K) (code : ℕ)
        → run_listening floats quote platform requests http_failed d contexts clock config listened
            out
          ≡ drained code (some u)
        → IsDrained config out code u
    unfolding run_listening
    listening-IsDrained (some e) config out u code h = absurd (cc h)
    listening-IsDrained none config out u code h = serving-IsDrained http_failed config out u code h

    opened-IsDrained :
        (listen : String → Option String) (config : Config) (m : String ⊎ Jsonl F)
        (u : Running C F K) (code : ℕ)
        → run_opened floats quote platform requests http_failed d contexts clock listen config m
          ≡ drained code (some u)
        → (out : Jsonl F) × (m ≡ inr out) × IsDrained config out code u
    unfolding run_opened
    opened-IsDrained listen config (inl e) u code h = absurd (cc h)
    opened-IsDrained listen config (inr out) u code h =
        (out, refl, listening-IsDrained (listen config.grpc_listen_addr) config out u code h)

    pub run-IsDrained :
        {W : Type 0} (fs : FileSystem W F) (getenv : String → String)
        (parse_duration : String → Option ℤ) (listen : String → Option String) (args : List String)
        (w : W) (u : Running C F K) (code : ℕ)
        → (run floats quote platform requests http_failed d contexts clock fs getenv parse_duration
            listen args w).0
          ≡ drained code (some u)
        → (let config = load_config getenv parse_duration in
            (out : Jsonl F) × ((new_jsonl fs config.observations_path w).0 ≡ inr out)
            × IsDrained config out code u)
    unfolding run
    run-IsDrained fs getenv parse_duration listen args w u code h =
        elim (Bool-cases (asks_version args)) [
          | inl v ↦ absurd (cc (rw (v, run) at h))
          | inr v ↦
              let config = load_config getenv parse_duration in
              opened-IsDrained listen config (new_jsonl fs config.observations_path w).0 u code
                (rw (v, run) at h)
        ]

    -- Whatever requests arrived over HTTP and gRPC, whatever the environment says and whatever failed:
    -- if the process exits with 0, the HTTP server shut down and the gRPC server stopped gracefully,
    -- and the flush of what the requests had left began and ended before the deadline and reported no
    -- error.
    pub run-flushed :
        {W : Type 0} (fs : FileSystem W F) (getenv : String → String)
        (parse_duration : String → Option ℤ) (listen : String → Option String) (args : List String)
        (w : W) (u : Running C F K)
        → (run floats quote platform requests http_failed d contexts clock fs getenv parse_duration
            listen args w).0
          ≡ drained 0 (some u)
        → (let config = load_config getenv parse_duration in
            (out : Jsonl F) × ((new_jsonl fs config.observations_path w).0 ≡ inr out)
            × (d.http_err ≡ none)
            × (d.stopped ≡ done tt)
            × (d.ctx ≡ none)
            × (d.late ≡ none)
            × (flush_last floats quote platform (last_served config out) ≡ (none, u)))
    run-flushed fs getenv parse_duration listen args w u h =
        let (out, m, (a, z)) = run-IsDrained fs getenv parse_duration listen args w u 0 h in
        let (x, y, c, l, f) = z refl in (out, m, x, y, c, l, f)

    module _ (content : F → Bytes) (laws : FileLaws file content) where
      -- Whatever requests arrive over HTTP and gRPC, whatever the environment says and whatever fails:
      -- if the process drains and leaves a service whose sink is not poisoned, it had opened the file
      -- of its configuration, and behind what the file held then it has one line for the execution of
      -- each of the records that the processor wrote on its way to its state. Each record has the key
      -- of its execution and consumes besides at most the parent that this names, none has a key that
      -- an earlier one has consumed, each is honest about its operation id, and the counters of
      -- emission say how many there are of each correlation and kind.
      pub run-file :
          {W : Type 0} (fs : FileSystem W F) (getenv : String → String)
          (parse_duration : String → Option ℤ) (listen : String → Option String)
          (args : List String) (w : W) (u : Running C F K) (code : ℕ)
          → (run floats quote platform requests http_failed d contexts clock fs getenv
              parse_duration listen args w).0
            ≡ drained code (some u)
          → u.service.sink.out.poisoned ≡ none
          → (let config = load_config getenv parse_duration in
              (out : Jsonl F) × ((new_jsonl fs config.observations_path w).0 ≡ inr out)
              × ((written : List AssembledExecution) × IsHistory quote marshal content
                    config.merge_wait out.f u.service written
                  × All (λ a. IsHonestRecord a.ex) written
                  × IsTally written u.service.processor.stats))
      run-file fs getenv parse_duration listen args w u code h p =
          let (out, m, (a, z)) = run-IsDrained fs getenv parse_duration listen args w u code h in
          (
            out,
            m,
            first-Files content laws (load_config getenv parse_duration) out contexts clock u a p,
          )
