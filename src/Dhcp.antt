-- ===== src/Dhcp.antt =====
-- Package dhcp (internal/dhcp): the DHCPv4 codec, the lease pool and the server.
pub mod Types
pub mod Options
pub mod Message
pub mod Pool
pub mod Server
mod Tests
