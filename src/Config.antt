-- ===== src/Config.antt =====
-- config.py: the configuration, its safety checks, and the authorization of writes to a TV.
pub mod Types
pub mod Authorize
pub mod PackageUrl
pub mod Load
