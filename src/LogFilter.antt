-- ===== src/LogFilter.antt =====
-- The log filter engine, go/logfilter.
pub mod Log
pub mod Pool
pub mod Memory
pub mod Errors
pub mod Semaphore
pub mod Task
pub mod Rpc
pub mod Redis
pub mod Checkpoint
pub mod Handlers
pub mod Config
pub mod Shutdown
pub mod TaskLoop
pub mod Runner
mod Tests
