-- ===== src/Tests.antt =====
-- Runs of the model on concrete data, and the theorems at concrete data.
pub mod Data
pub mod Json
mod Servers
mod Ledgers
mod Changes
mod Chains
mod Links
mod Pairs
mod Reuse
mod Reached
mod Extensions
mod Clients
mod Frames
mod Payloads
mod Configurations
mod Readers
