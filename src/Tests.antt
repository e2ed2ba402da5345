-- ===== src/Tests.antt =====
-- Runs on concrete input, and the properties applied at inputs that meet their hypotheses.
mod Values
mod Merging
mod Telemetry
mod Runs
mod Files
mod Exports
mod Hooks
mod Drain
mod Environment
mod Reading
mod Serving
mod Delivering
mod Keeping
mod Flushing
mod Replaying
