-- ===== src/Tests/Serving.antt =====
-- The whole process with some requests and a drain.
use evidra_agentgateway_brid.Prelude.{
  ℕ, ◌+◌, String, ◌≡◌, refl, sym, ◌⊎◌, inr, Option, none, some, List, [], ◌∷◌, ◌++◌, All, length,
}
use evidra_agentgateway_brid.Prelude.Int.{pos}
use evidra_agentgateway_brid.Dict.{Dict, put}
use evidra_agentgateway_brid.Observation.{Execution}
use evidra_agentgateway_brid.Bridge.Merge.Attribution.{IsHonestRecord}
use evidra_agentgateway_brid.Bridge.State.{set_observer}
use evidra_agentgateway_brid.Bridge.Assembly.{AssembledExecution}
use evidra_agentgateway_brid.Bridge.Processor.{write_to}
use evidra_agentgateway_brid.Bridge.Consume.{
  take_in, receive_logs, receive_spans, consume_log_records, consume_spans,
}
use evidra_agentgateway_brid.Bridge.Processor.{assemble_expired}
use evidra_agentgateway_brid.Bridge.Processor.Interleaving.Frame.{IsTally}
use evidra_agentgateway_brid.Sink.{Bytes, JsonlFile, Jsonl}
use evidra_agentgateway_brid.Sink.Lines.{FileLaws, take, take_whole}
use evidra_agentgateway_brid.Sink.{close_jsonl}
use evidra_agentgateway_brid.Sink.Opening.{FileSystem, make_directory, opened, open_in, new_jsonl}
use evidra_agentgateway_brid.Telemetry.{LogRecord}
use evidra_agentgateway_brid.Otlp.{
  ExportRequest, flatten_scopes, flatten, serve_consumed, serve_decoded, serve_http, serve_logs,
  serve_traces, export,
}
use evidra_agentgateway_brid.Config.{
  Config, env_or_default, parsed_or, env_duration_or_default, load_config,
}
use evidra_agentgateway_brid.Service.{write_sink, jsonl_sink, new_service, answer, serve_all}
use evidra_agentgateway_brid.Service.History.{IsHistory}
use evidra_agentgateway_brid.Server.{
  Platform, Running, Request, http, grpc_traces, stamp_all, called, logs_consumer, traces_consumer,
  serve_path, serve_request, serve_requests,
}
use evidra_agentgateway_brid.Shutdown.{
  done, exit_code, is_some, finalize_shutdown, stop_grpc, await_flush, flush_processor,
  is_flush_deadline, shutdown_services, shut_down,
}
use evidra_agentgateway_brid.Startup
use evidra_agentgateway_brid.Startup.{
  Ended, drained, Drain, asks_version, code_of, flush_last, drain_by, first_service, run_serving,
  run_listening, run_opened,
}
use evidra_agentgateway_brid.Startup.Whole.{last_served, run-file}
use evidra_agentgateway_brid.Tests.Values.{quote}
use evidra_agentgateway_brid.Tests.Files.{decimal}
use evidra_agentgateway_brid.Tests.Runs.{run}
use evidra_agentgateway_brid.Tests.Reading.{program}
use evidra_agentgateway_brid.Tests.Telemetry.{program as normalization, whole, log, span}

-- A file that takes every line.
abbrev pub paper : JsonlFile Bytes
paper = record {
  stat = λ f. inr (length f);
  write = λ f line. ((length line, none), f ++ line);
  truncate = λ f n. (none, take n f);
  close = λ f. (none, f);
}

pub paper-laws : FileLaws paper (λ f. f)
paper-laws = record {
  stat_size = λ f n e. sym (cc e);
  write_appends = λ f line. rw (take_whole line) refl;
  truncate_cuts = λ f n h e. refl;
}

abbrev pub marshal : Execution → String ⊎ Bytes
marshal ex = inr (length ex.seen_from ∷ [])

abbrev pub no_context : Unit {0} → Option String × Unit {0}
no_context c = (none, c)

abbrev pub unmarshal_logs : List ℕ → Option (ExportRequest (Option (LogRecord ℕ)))
unmarshal_logs [] = none
unmarshal_logs (n ∷ rest) = some (((some log ∷ none ∷ []) ∷ []) ∷ [])

-- The entries of a map, in the order in which they stand, each key once.
unfoldable pub visited : Dict Execution → Dict Execution
visited [] = []
visited ((k, sp) ∷ spans) = put k sp (visited spans)

abbrev pub platform : Platform ℕ Unit Bytes ℕ
platform = record {
  file = paper;
  decimal = decimal;
  marshal = marshal;
  ctx_err = no_context;
  tick = λ k. (pos k, k + 1);
  visit = λ d k. (visited d, k);
  unmarshal_logs = unmarshal_logs;
  unmarshal_traces = λ body. none;
  encode_stats = λ s. "{}";
  unrouted = λ path r. record { status = 404; content_type = none; body = none };
}

-- The log of a call over HTTP, its span over gRPC, and two requests that change nothing.
abbrev pub requests : List (Request ℕ)
requests =
    http "/v1/logs" (record { method = "POST"; body = inr (1 ∷ []) })
    ∷ grpc_traces (((some span ∷ []) ∷ []) ∷ [])
    ∷ http "/stats" (record { method = "GET"; body = inr [] })
    ∷ http "/v1/traces" (record { method = "POST"; body = inr [] })
    ∷ []

abbrev pub fs : FileSystem Unit Bytes
fs = record {
  dir = λ path. "output";
  mkdir_all = λ d w. (none, w);
  open_append = λ path w. (inr (7 ∷ []), w);
}

abbrev pub getenv : String → String
getenv key = ""

abbrev pub in_time : Drain
in_time = record { http_err = none; stopped = done tt; ctx = none; late = none }

abbrev pub config : Config
config = load_config getenv (λ s. none)

abbrev pub sink : Jsonl Bytes
sink = record { path = "output/observations.jsonl"; f = 7 ∷ []; poisoned = none }

abbrev pub last : Running Unit Bytes ℕ
last =
    (flush_last whole quote platform
      (last_served whole quote platform requests none in_time tt 5 config sink)).1

abbrev ran : Ended Unit Bytes ℕ
ran =
    (Startup.run whole quote platform requests none in_time tt 5 fs getenv (λ s. none)
      (λ addr. none) [] tt).0

unfoldable pub serving : Unit {0}
unfolding run normalization program take_in receive_logs receive_spans consume_log_records
    consume_spans assemble_expired write_to set_observer write_sink jsonl_sink new_service answer
    serve_all flatten_scopes flatten serve_consumed serve_decoded serve_http serve_logs serve_traces
    export stamp_all called logs_consumer traces_consumer serve_path serve_request serve_requests
    make_directory opened open_in new_jsonl env_or_default parsed_or env_duration_or_default
    load_config close_jsonl exit_code is_some finalize_shutdown stop_grpc await_flush
    flush_processor is_flush_deadline shutdown_services shut_down asks_version code_of flush_last
    drain_by first_service run_serving run_listening run_opened Startup.run visited
serving = tt

-- The log and the span of one call are one line behind what the file held, and the process succeeds.
one_line : (ran ≡ drained 0 (some last)) × (last.service.sink.out.f ≡ 7 ∷ 2 ∷ 10 ∷ [])
unfolding serving
one_line = (refl, refl)

run-file_example :
    (out : Jsonl Bytes) × ((new_jsonl fs config.observations_path tt).0 ≡ inr out)
    × ((written : List AssembledExecution) × IsHistory quote marshal
          (λ f. f)
          config.merge_wait
          out.f
          last.service
          written
        × All (λ a. IsHonestRecord a.ex) written
        × IsTally written last.service.processor.stats)
unfolding serving
run-file_example =
    run-file whole quote platform requests none in_time tt 5 (λ f. f) paper-laws fs getenv
      (λ s. none) (λ addr. none) [] tt last 0 refl refl
