-- ===== src/Kcp.antt =====
-- The async crate in kcp/: its configuration and its errors.
pub mod Error
pub mod Config
pub mod Loss
pub mod Actor
pub mod Listener
pub mod Stream
