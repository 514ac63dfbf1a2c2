-- ===== src/Tests.antt =====
-- Concrete crates that meet the documented behaviour, runs of the code over them, and the theorems
-- at concrete inputs.
pub mod Toy
pub mod ToyLaws
pub mod Data
pub mod Vaults
pub mod Keys
pub mod Store
pub mod Team
pub mod Browser
pub mod Flows
pub mod Machine
pub mod Lifecycle
pub mod Passwords
pub mod Restored
pub mod Shared
pub mod Verified
pub mod Wire
pub mod Login
pub mod Sized
