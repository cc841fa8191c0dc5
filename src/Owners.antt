-- ===== src/Owners.antt =====
-- src/controllers/krate/owners.rs and the accept handlers of
-- src/controllers/crate_owner_invitation.rs: how a crate gets and loses owners. Server and state
-- stand in Base, one login in Add, the request in Modify, the invited user's answer in Answer.
pub mod Base
pub mod Add
pub mod Modify
pub mod Answer
pub mod Users
pub mod Keepers
pub mod Control
pub mod Gains
pub mod History
mod Examples
mod Tests
