-- ===== src/Publish.antt =====
-- src/controllers/krate/publish.rs: a new crate or a new version of a crate is published.
pub mod Body
pub mod Framing
pub mod Manifest
pub mod Checks
pub mod Dependencies
pub mod Tables
pub mod Rows
pub mod Labels
pub mod Store
pub mod Transaction
pub mod Access
pub mod Handler
pub mod Refused
pub mod Run
pub mod Frames
pub mod Persist
pub mod Created
pub mod Numbers
pub mod Unique
pub mod Allowed
pub mod Permission
pub mod Existing
pub mod Creator
pub mod Bounds
pub mod Limits
pub mod Examples
mod Tests
