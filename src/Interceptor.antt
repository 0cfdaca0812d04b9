-- ===== src/Interceptor.antt =====
-- System Calls and Monitoring Processes: the interceptor kernel module.
pub mod State
pub mod PidList
pub mod Calls
pub mod Requests
pub mod Init
pub mod Effect
pub mod Members
pub mod Invariant
pub mod Watch
pub mod Refinement
pub mod Exit
pub mod Logging
pub mod Lifetime
pub mod Memory
mod Tests
