-- ===== src/SqlAudit.antt =====
-- sql_audit.py: static checks of SQL dumps. A document is the list of its code points.
pub mod Mask
pub mod Report
