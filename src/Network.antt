-- ===== src/Network.antt =====
-- internal/network: the allocator of guest addresses.
pub mod Ipam
pub mod Addresses
pub mod Guests
mod Examples
