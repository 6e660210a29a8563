-- ===== src/SoftEther.antt =====
-- internal/softether: the isolated tunnel's own client of the SoftEther protocol.
pub mod Pack
pub mod Sha0
pub mod Session
pub mod Link
pub mod Handshake
pub mod Dhcp
pub mod Dialing
