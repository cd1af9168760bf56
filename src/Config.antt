-- ===== src/Config.antt =====
-- pyxxl/config/executor.py: the configuration, its addresses and its validation.
pub mod Texts
pub mod Url
pub mod Address
pub mod Settings
pub mod Plain
pub mod Written
pub mod Normal
pub mod Paths
pub mod Kept
pub mod Complete
mod Examples
