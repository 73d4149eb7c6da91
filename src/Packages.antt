-- ===== src/Packages.antt =====
-- The package server of src/cmnd_linux/packages.py.
pub mod Ranges
