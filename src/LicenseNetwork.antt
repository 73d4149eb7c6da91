-- ===== src/LicenseNetwork.antt =====
-- The network access of the vendor's license client, src/cmnd_linux/license_network.py.
pub mod Resolve
pub mod Enable
