-- ===== src/App.antt =====
-- pyxxl/app/runner.py: what `PyxxlRunner` builds from a configuration, and how it shuts down.
pub mod Backends
pub mod Runner
pub mod Cleanup
mod Shutdown
pub mod Outcome
mod Examples
