-- ===== src/Lib.antt =====
-- The bridge between agentgateway's telemetry and Evidra: OTLP log records and spans of MCP tool
-- calls become one `Execution` record each, which a sink writes as a line of JSON.
--
-- A log record or a span enters through `ConsumeLogRecords` or `ConsumeSpans`. Normalization keeps
-- what is a tool call and says how it ended; the processor buffers the record under its join key,
-- the trace id and the span id, and merges it with the other signals of the key. A span whose parent
-- is buffered claims it, so that client and server span give one record. Assembly takes a snapshot
-- of what is complete or has waited long enough, reserves it, and writes it outside the mutex; what
-- arrives meanwhile is pending, and is dropped after a successful write and folded back after a
-- failed one.
--
--   Observation  internal/observation/execution.go: the record, `JoinKey` (`join_key`),
--                `ValidOperationID` (`valid_operation_id`), `ClassifyOperation`
--   Telemetry    the OTLP messages that the code reads
--   Normalize    internal/normalize/aliases.go (Attributes) and agentgateway.go: attributes
--                (Attributes), status and availability (Verdict), `FromLogRecord` and `FromSpan`
--                (Records)
--   Bridge       internal/bridge/processor.go: `merge` (Merge), the state and `buffer` (State), the
--                parts of `assemble` and `emit` that change state (Assembly), `assemble`, `emit` and
--                `Flush` with a sink (Processor), `ConsumeLogRecords` and `ConsumeSpans` (Consume)
--   Sink         internal/sink/jsonl.go: `NewJSONL` (Opening), `Write` and `Close`, and `ReadAll`
--                (Reading)
--   Service      the processor and the sink as cmd/bridge/main.go puts them together, and what a
--                service has written (History)
--   Otlp         internal/otlphttp/handler.go and internal/otlpgrpc/server.go: what an export is
--                turned into, and the answers
--   ExtMcp       internal/extmcp/server.go: the capture hook and its store, and the tool that runs
--                it, cmd/extmcp-spike/main.go (Artifact)
--   Config       internal/config/config.go: defaults and the environment
--   Server       cmd/bridge/main.go and internal/otlpgrpc/server.go: the routes of the mux, the
--                registration of the gRPC services, and the answers to a series of requests
--   Shutdown     cmd/bridge/main.go: the drain of the process and its exit code
--   Startup      cmd/bridge/main.go: `run`, from the flag to the exit code
--   Replay       internal/replay/replay.go and cmd/replay/main.go: the search for a fixture, the
--                payload, and its way to the bridge
--   Text, Dict   Go's `strings`, and maps as association lists
--   Prelude      shared names, tests on numbers, lists, signed integers
--   Tests        runs, and the properties at concrete inputs
--
-- The processor is modelled twice. Bridge.Processor has the functions as they are written, run by one
-- goroutine. Bridge.Processor.Interleaving has one step for each section between a lock and its
-- unlock, so that a run of it is any interleaving of consumers and flushes, with a sink that fails
-- whenever it likes. Assembly holds a second mutex, so at most one is under way: `Control` says where
-- it stands. `Admitted` is what is asked of the signals that arrive.
--
-- Parameters: `quote` is fmt's `%q`; `Floats` is strconv and the conversions of floating-point
-- numbers; `Sink` is the interface of that name; `order` is the order in which Go visits the map of
-- spans, which the language leaves open; the time is an argument of what calls `time.Now`; `marshal`
-- and `unmarshal` are json.Marshal and proto.Unmarshal, `getenv` and `parse_duration` are os.Getenv and
-- time.ParseDuration, and `decimal` prints a number. `Platform` is what a process meets outside,
-- `FileSystem` and `Host` are os, filepath and protobuf as the sink and the replay tool use them.
-- Theorems assume of them only this, and say so: `FileLaws`, the operating system's promise that a
-- file which is open for appending and has one writer grows by what a write says it took, and that a
-- truncation that succeeds cuts it; `CleanLaws`, of filepath.Clean, that it leaves a path as it is
-- or shortens it, and makes the empty one a dot; `Visits`, `Visited` and `VisitsAll`, that a range
-- over a map visits exactly the entries of the map; `IsStorable`, that json.Marshal writes an
-- execution as an object on one line from which json.Unmarshal gives it back; and that protobuf
-- reads a request from what it was written as.
--
-- Conventions: texts are lists of code points; times are nanoseconds since the zero `time.Time`, and
-- the monotonic clock is left out; `int64` and `uint64` values keep their bounds and wrap-around,
-- while the counters of `Stats` are plain numbers, since none reaches 2 ^ 63; an enumeration number
-- that protobuf does not name counts as the unspecified one; the decimal digits of a number are
-- printed by recursion on a fuel of 20, and the numbers of 64 bits have at most 20 digits. The climb
-- to the directory of go.mod has two more than the length of the working directory as its fuel, and
-- never runs out of it, since every step but the first shortens the path. Everything else recurses on
-- a list or a text.
--
-- Not modelled: the generated internal/extmcp/api; `Serve`, `GracefulStop` and `Stop` of
-- internal/otlpgrpc, which are a call of the gRPC library each; log lines. In the model of the whole
-- process requests are served one after another; what may happen between them when they run side by
-- side is in Bridge.Processor.Interleaving.
pub mod Prelude
pub mod Text
pub mod Dict
pub mod Observation
pub mod Telemetry
pub mod Normalize
pub mod Bridge
pub mod Sink
pub mod Otlp
pub mod ExtMcp
pub mod Shutdown
pub mod Config
pub mod Replay
pub mod Service
pub mod Server
pub mod Startup
pub mod Tests
