-- ===== src/Updates.antt =====
-- updates.py: updates of the tooling from the fixed GitHub repository.
pub mod Version
pub mod Release
pub mod Manifest
pub mod Fetch
pub mod Host
pub mod Worker
