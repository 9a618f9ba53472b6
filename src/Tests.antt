-- ===== src/Tests.antt =====
-- Runs of the modelled code on concrete inputs.
pub mod Instances
mod Parser
mod Settings
mod Supports
mod Modulo2
mod Pictures
mod Phasing
mod OptionFiles
mod OptionReading
mod OptionGroups
