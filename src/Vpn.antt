-- ===== src/Vpn.antt =====
-- internal/vpn: the isolated tunnel of each profile and its published state.
pub mod States
pub mod Isolated
pub mod Access
