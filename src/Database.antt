-- ===== src/Database.antt =====
-- crates/crates_io_database/src/models: the rows and the queries that the handlers use.
pub mod User
pub mod Krate
pub mod Owners
pub mod Invitations
pub mod Token
