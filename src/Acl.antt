-- ===== src/Acl.antt =====
-- internal/modules/acl: the users with their rights, the connections, and what a connection may do.
pub mod User
pub mod State
pub mod Authorize
pub mod Categories
pub mod Rights
pub mod Globs
pub mod Revocation
pub mod Users
pub mod Passwords
pub mod Entries
