-- ===== src/Wasm/Machine/Exports.antt =====
-- What each exported function of src/wasm.rs gives back, if it gives anything, without a panic.
pub mod Keys
pub mod Vaults
pub mod Shares
pub mod Logins
