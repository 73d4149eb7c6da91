-- ===== src/Artifacts.antt =====
-- The archives of src/cmnd_linux/artifacts.py.
pub mod Members
