-- ===== src/Normalize.antt =====
-- internal/normalize: OTLP telemetry becomes `Execution` records.
pub mod Attributes
pub mod Verdict
pub mod Records
