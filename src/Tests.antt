-- ===== src/Tests.antt =====
-- Concrete runs of the modelled code.
pub mod Waiting
pub mod Evaluating
pub mod Calling
pub mod Parsing
pub mod Receiving
pub mod Names
pub mod Memory
pub mod Supervision
pub mod Alarms
pub mod Tables
pub mod Teams
pub mod Collecting
pub mod Matching
pub mod Sources
pub mod Queues
pub mod Families
pub mod Upgrades
