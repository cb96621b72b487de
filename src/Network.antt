-- ===== src/Network.antt =====
-- The networking of the server: clawpot-server/src/network.
pub mod Addr
pub mod IpAllocator
pub mod Iptables
pub mod Devices
pub mod Manager
