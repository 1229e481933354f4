-- ===== src/System.antt =====
-- The whole system: requests, workers and the passing of time, in any order.
pub mod Bank
pub mod Reads
pub mod Loops
pub mod Serving
pub mod Outside
pub mod Worlds
pub mod Seed
pub mod Steps
pub mod Backlog
pub mod History
pub mod Reachable
pub mod Interleaved
pub mod Commits
pub mod Access
pub mod Observed
