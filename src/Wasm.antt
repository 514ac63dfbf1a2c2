-- ===== src/Wasm.antt =====
-- src/wasm.rs: the bindings for the browser. A handle holds the value that stays in wasm memory;
-- an error reaches JavaScript as a text. `Calls` draw no randomness, `Draws` do, and `Destroy` drops
-- handles; `Machine` runs all of them on one memory.
pub mod Handles
pub mod Calls
pub mod Draws
pub mod Vaults
pub mod Sharing
pub mod Account
pub mod Destroy
pub mod Login
pub mod Sizes
pub mod Machine
