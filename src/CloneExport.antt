-- ===== src/CloneExport.antt =====
-- The export of a clone from a TV, src/cmnd_linux/clone_export.py.
pub mod Multipart
pub mod Received
pub mod Receive
pub mod Checks
pub mod Session
