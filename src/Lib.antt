-- ===== src/Lib.antt =====
-- The client-side cryptography of evnx: src/errors.rs, src/encoding.rs, src/kdf.rs, src/vault.rs,
-- src/keypair.rs, src/srp.rs, src/zeroize.rs and src/wasm.rs, and the flows of
-- tests/readme_flows.rs and src/lib.rs that run them.
--
-- How the parts interact. A password and a salt give a `MasterKey` (kdf). The master key seals the
-- user's Ed25519 seed, from which the X25519 and the ML-KEM-768 keys are derived (keypair), and it
-- wraps `VaultKey`s (vault). A vault key encrypts blobs whose associated data name the vault id and
-- the version (vault), and it is wrapped for other users by a hybrid of X25519 and ML-KEM-768
-- (keypair). The same password with another salt gives the input of the SRP login (srp). Values
-- cross the network as base64 or hex (encoding), and the browser reaches all of it through handles
-- (wasm). Secrets are wiped when their buffers are released (zeroize).
--
-- Which file models what. A module has the name of its source file and a function its own name.
-- Base: bytes as natural numbers below 256, machine words, decimal numbers, slices, and `Outcome`,
-- the result of code that may return an error or panic (`expect`, a slice out of range, a copy
-- between different lengths).
-- Errors: `CryptoError` and its texts.
-- Crates: the third-party crates, which are not in the repository. Each is a record of operations,
-- a parameter of every definition that calls it, and a record of laws (`IsAead`, `IsHkdf`,
-- `IsArgon2`, `IsX25519`, `IsMlKem` and so on), which say what the crate documents and are
-- hypotheses of the theorems that need them. `Rng` is the state of the operating system's
-- generator; code that draws passes it on (`Random`), on the error paths too.
-- Zeroize: `SecretBytes`, `SecretString`, `SecretArray`; a drop is what the released buffer holds.
-- `Released` tells the fields that a drop reaches from those that `#[zeroize(skip)]` keeps from
-- it.
-- Encoding: `b64_encode`, `b64_decode`, `b64_decode_array`.
-- Kdf: the derivations, with their constants and domain tags.
-- Vault: VaultKey has the key, Identity `vault_aad` and `blob_hash`, Seal the operations that draw
-- a nonce and Open those that do not; Aad, Blob, Rekey and Wrap prove what they promise. Store has
-- the abstract view of a vault over time: a client pushes versions and rotates the key
-- (`edit_all`), a server holds the blobs, and `history` is the list of pushes that they stand for.
-- Store is a specification and has no counterpart in the source but the calls that it makes.
-- Keypair: Types has the structs, Derive, Generate, PrivateKey, Hybrid, Wrap, Unwrap, Cipher and
-- FreshCipher the operations, TestSupport the constructors of the feature `test-utils`, and a file
-- for each type its methods. Laws has the proofs; `IsUserKeypair` says that a keypair is complete,
-- all of it derived from its seed, and `IsWrapFor` what a wrap must be to open.
-- Team: a vault that a team shares, as Store with invitations and expulsions; the server holds a
-- grant for each member, the vault key wrapped for the published keys, and an expulsion rotates
-- the key. It is a specification like Store. Granting says what a grant is and what an edit asks
-- for, Access what members read, and Expelled what an expulsion does.
-- Passwords: what follows where one sealed key opens under two passwords.
-- Srp: the client's steps, what a finished login has established, and in Drop what the two values
-- leave in memory; what the `srp` crate leaves of its own verifier is a parameter. The server of
-- the `srp` crate is a parameter (`SrpServer`), and `IsSrp` and `IsMutual` say that both sides
-- implement the protocol; Mutual is a login against such a server.
-- Wasm: Handles has the handles and bundles, Calls the functions that draw nothing and Draws the
-- others, and Destroy the `destroy` methods, by what the memory of the secrets holds afterwards;
-- Vaults, Sharing, Account, Login and Sizes have the proofs. Machine puts all of them together:
-- `Memory` is the linear memory with the values behind the handles of each class, a handle is the
-- number of its slot, `Call` is what JavaScript can ask for, and `run` is one call. `IsSound` says
-- what holds of the memory between two calls. Classes has the handles that each call borrows and
-- the kinds of the replies, Places, Lasting, Ends and Lifecycle what becomes of a handle, and
-- Sized how long the replies are. Blobs, Restored, Shared and Verified run whole sessions, Shared
-- on two memories.
-- Flows: the flows of tests/readme_flows.rs, and the example of src/lib.rs, with their constants as
-- arguments and their assertions and `expect`s as panics.
-- Tests: small concrete crates that meet all the laws, and each theorem at concrete inputs.
--
-- Representation and bounds. An array `[u8; N]` is a list of bytes, and its length is a hypothesis
-- where a theorem needs it (`IsVaultKey`, `IsMasterKey`, `IsBlob`). The cast of a length to `u16`
-- in `vault_aad` and the wrapping increment of the self-test are written out. The bounds of 2 ^ 32
-- bytes on plaintexts and associated data stay below the limits of both ciphers. The code has no
-- unbounded loop. The one fuel is that of printing a number in decimal (Base/Decimal): 20, since a
-- `usize` has at most 20 digits. Correctness of ML-KEM is asked for each draw that is made,
-- since it fails for a share of the draws that is not zero.
--
-- Not modelled: the `serde` derives, the code that `wasm_bindgen` generates (a handle is a slot
-- that is not used twice, and an empty one is refused with an error that is a parameter), the
-- compile-time assertion on ML-KEM keys, the wiping of buffers that are not released by a `drop`
-- of the library, and the secrecy of anything: the theorems say what is computed and refused, not
-- what an adversary can learn.

pub mod Base
pub mod Errors
pub mod Crates
pub mod Zeroize
pub mod Encoding
pub mod Kdf
pub mod Vault
pub mod Keypair
pub mod Team
pub mod Passwords
pub mod Srp
pub mod Wasm
pub mod Flows
pub mod Tests
