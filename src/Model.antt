-- ===== src/Model.antt =====
-- internal/model: the data that the other parts share.
pub mod Errors
pub mod Files
pub mod Addresses
pub mod Profiles
