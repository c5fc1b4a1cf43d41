-- ===== src/Transport.antt =====
-- internal/transport: finding a domain controller and talking to it.
pub mod Fstest
pub mod Discover
pub mod Krb
pub mod Ldapx
pub mod Smbx
pub mod Replica
