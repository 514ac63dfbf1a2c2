-- ===== src/Wasm/Machine.antt =====
-- The memory of src/wasm.rs as JavaScript drives it: handles in slots, and one call at a time.
pub mod Slots
pub mod Memory
pub mod Keep
pub mod Run
pub mod Classes
pub mod Places
pub mod Lasting
pub mod Ends
pub mod Lifecycle
pub mod Sound
pub mod Released
pub mod Exports
pub mod Invariant
pub mod Blobs
pub mod Restored
pub mod Shared
pub mod Verified
pub mod Sized
