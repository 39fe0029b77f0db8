-- ===== src/HighLevel.antt =====
-- src/high_level: the command schema, and the requests that it maps to.
pub mod Android
pub mod Api
