-- ===== src/Smb.antt =====
-- smb_server/go: the SMB gateway.
pub mod WriteCache
pub mod Handle
pub mod Registry
pub mod Frame
