-- ===== src/Srp.antt =====
-- src/srp.rs: the client of SRP-6a. `Steps` are the operations that draw nothing, `Ephemeral` the
-- one that draws the private ephemeral, `Drop` what is left of the values.
pub mod Types
pub mod Steps
pub mod Ephemeral
pub mod Login
pub mod Mutual
pub mod Drop
