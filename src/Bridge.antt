-- ===== src/Bridge.antt =====
-- internal/bridge/processor.go: merging the signals of one execution, and the processor that buffers
-- signals and assembles executions from them.
pub mod Merge
pub mod State
pub mod Assembly
pub mod Processor
pub mod Consume
