-- ===== src/Transport/Smbx.antt =====
-- internal/transport/smbx: reading SYSVOL over SMB.
pub mod Unc
pub mod DirFs
pub mod Session
pub mod Client
pub mod Threads
pub mod Walks
