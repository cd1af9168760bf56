-- ===== src/Runtime.antt =====
-- pyxxl/runtime: the executor, its handlers and its callbacks.
pub mod Executor
pub mod Callbacks
pub mod Handlers
pub mod System
pub mod TaskLog
pub mod ChildLog
pub mod Metrics
mod Examples
