-- ===== src/Runtime/Callbacks.antt =====
-- pyxxl/runtime/callbacks.py: the callback queue, its worker, its retries and its store of files.
pub mod State
pub mod Worker
pub mod Pending
pub mod Stopping
pub mod Recovery
pub mod Ledger
pub mod Persist
pub mod Filed
pub mod Saved
pub mod Restart
pub mod Replay
pub mod Opening
pub mod Leak
pub mod Promises
pub mod Held
pub mod Balance
pub mod Closed
mod Examples
