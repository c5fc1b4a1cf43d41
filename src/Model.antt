-- ===== src/Model.antt =====
-- internal/model: the data model that the collectors and the reports share.
pub mod Som
pub mod Gpo
pub mod Security
pub mod Setting
