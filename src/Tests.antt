-- ===== src/Tests.antt =====
-- Runs of the development at concrete inputs.
pub mod Samples
mod Merges
mod Replies
mod Caches
mod Sources
mod Servers
mod Processes
mod Services
