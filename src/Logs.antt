-- ===== src/Logs.antt =====
-- pyxxl/logger: the log of a task, kept in lines and read by pages.
pub mod Store
pub mod Paging
pub mod Following
pub mod Expiry
pub mod Failing
pub mod Loggers
pub mod Handled
pub mod Isolation
pub mod Written
pub mod Lifetime
mod Examples
mod LifetimeExamples
