-- ===== src/Vhost.antt =====
-- internal/vhost/vu: the vhost-user block device, whose peer is a guest that is not trusted.
pub mod Memory
pub mod Ring
pub mod Walk
pub mod Mapped
pub mod Request
pub mod Served
pub mod Tables
pub mod Peer
pub mod Fds
pub mod Block
pub mod Bounds
mod Examples
