-- ===== src/Directory.antt =====
-- internal/directory: what is read from Active Directory.
pub mod GpLink
pub mod Reader
