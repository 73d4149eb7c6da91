-- ===== src/DatabaseCase.antt =====
-- The repair of the case of table names, src/cmnd_linux/database_case.py.
pub mod Audit
pub mod Repair
