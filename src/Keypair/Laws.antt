-- ===== src/Keypair/Laws.antt =====
-- The proofs about src/keypair.rs.
pub mod Identity
pub mod Seal
pub mod Transcript
pub mod Kem
pub mod Share
pub mod Refusal
pub mod Acceptance
pub mod Transplant
pub mod Wire
pub mod Seed
