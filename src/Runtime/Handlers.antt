-- ===== src/Runtime/Handlers.antt =====
-- pyxxl/runtime/handlers.py and pyxxl/runtime/process.py: the registry of task functions.
pub mod Registry
pub mod Runnable
pub mod Ladder
pub mod Process
pub mod Running
mod Examples
