-- ===== src/Flows.antt =====
-- The flows of the documentation that the repository runs: tests/readme_flows.rs, and the example
-- of src/lib.rs. What is a constant there is an argument here.
pub mod Login
pub mod Registration
pub mod Sharing
pub mod Completion
pub mod Delivery
