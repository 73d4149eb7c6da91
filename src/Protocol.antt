-- ===== src/Protocol.antt =====
-- The WIXP protocol of src/cmnd_linux/protocol.py.
pub mod Requests
pub mod Send
