-- ===== src/Runtime/Executor.antt =====
-- pyxxl/runtime/executor.py: the scheduler of one executor, as explicit state passing.
-- One function is one stretch of code that the event loop runs without a switch.
pub mod State
pub mod Tasks
pub mod Jobs
pub mod Events
pub mod Spec
pub mod Slots
pub mod Drains
pub mod Entries
pub mod Good
pub mod Owned
pub mod Invariant
pub mod Landing
pub mod Edits
pub mod Answers
pub mod Blocking
pub mod Busy
pub mod Submit
pub mod Kill
pub mod Finish
pub mod Ends
pub mod Effects
pub mod Steps
pub mod Counts
pub mod Accounting
pub mod Shutdown
pub mod Promises
pub mod Preserved
pub mod Stopped
pub mod Live
mod Reports
pub mod Tally
pub mod Sound
pub mod Progress
pub mod Draining
pub mod Hooks
mod Examples
