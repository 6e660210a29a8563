-- ===== src/Profile.antt =====
-- internal/profile: where the connection profiles are kept.
pub mod Repository
