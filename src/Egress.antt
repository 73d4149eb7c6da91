-- ===== src/Egress.antt =====
-- The firewall chain of src/cmnd_linux/egress.py.
pub mod Policy
pub mod Apply
