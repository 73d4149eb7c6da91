-- ===== src/Discovery.antt =====
-- The discovery of TVs, src/cmnd_linux/discovery.py.
pub mod Targets
pub mod Identify
pub mod Inventory
