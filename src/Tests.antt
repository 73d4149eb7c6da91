-- ===== src/Tests.antt =====
-- The theorems at concrete inputs.
mod Updates
mod SqlAudit
pub mod Config
mod Egress
mod Simulator
mod Artifacts
mod Packages
pub mod Tv
mod CloneExport
mod DatabaseCase
mod Callbacks
mod LicenseNetwork
mod HardwareIdentity
