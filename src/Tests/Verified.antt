-- ===== src/Tests/Verified.antt =====
-- A verified login at a concrete session.
use evnx_crypto.Base.Bytes.{Bytes, Text, ascii, to_byte}
use evnx_crypto.Base.Outcome.{ok}
use evnx_crypto.Base.{[], ◌∷◌, ◌++◌, ◌≡◌, List, some, true, refl, arith, replicate}
use evnx_crypto.Encoding.{b64_decode, b64_decode_array}
use evnx_crypto.Kdf
use evnx_crypto.Srp.Ephemeral
use evnx_crypto.Srp.Steps
use evnx_crypto.Tests.Data.{salt, password}
use evnx_crypto.Tests.Machine.{null_pointer}
use evnx_crypto.Tests.Toy.{crates, encode, encode_hex, fit, public_ephemeral}
use evnx_crypto.Wasm.Calls
use evnx_crypto.Wasm.Draws
use evnx_crypto.Wasm.Handles.{SrpEphemeralHandle}
use evnx_crypto.Wasm.Machine.Memory.{Memory, Call, Reply, fresh}
use evnx_crypto.Wasm.Machine.Run.{run, run_all}
use evnx_crypto.Wasm.Machine.Slots.{get_slot}
use evnx_crypto.Wasm.Machine.Verified.{IsExchange, verified_login}

abbrev email : Text
email = ascii "user@example.test"

abbrev server_b : Text
server_b = encode_hex (replicate 4 (to_byte 2))

abbrev server_proof : Text
server_proof =
    encode_hex
      (public_ephemeral (replicate 64 (to_byte 3)) ++ (replicate 4 (to_byte 2) ++ fit 4 password))

abbrev before : List Call
before = Call.generate_client_ephemeral ∷ []

abbrev start : Memory crates
start = run_all crates null_pointer before (fresh crates 3)

abbrev proving : Call
proving = Call.compute_client_proof email (encode password) (encode salt) server_b 0

abbrev later : Memory crates
later =
    run_all crates null_pointer (Call.generate_salt ∷ []) (run crates null_pointer start proving).1

proved_by_code : (run crates null_pointer start proving).0 ≡ ok (Reply.handle 0)
unfolding run_all run Draws.generate_client_ephemeral Ephemeral.generate_client_ephemeral
    Calls.compute_client_proof Calls.salt_from_b64 Kdf.salt_from_base64 b64_decode_array b64_decode
    Steps.compute_client_proof
proved_by_code = refl

verified_by_code :
    (run crates null_pointer later (Call.verify_server_proof server_proof 0)).0 ≡ ok Reply.done
unfolding run_all run Draws.generate_client_ephemeral Ephemeral.generate_client_ephemeral
    Calls.compute_client_proof Calls.salt_from_b64 Kdf.salt_from_base64 b64_decode_array b64_decode
    Steps.compute_client_proof Draws.generate_salt Calls.verify_server_proof
    Steps.verify_server_proof
verified_by_code = refl

verified_login_example :
    (e : SrpEphemeralHandle) × (x : Bytes) × (sent : Bytes) × (get_slot 0 start.ephemerals ≡ some e)
    × IsExchange crates email (encode password) (encode salt) server_b e.inner.private_a x
    × (crates.hex.decode server_proof ≡ some sent)
    × (crates.srp.verify_server x sent ≡ true)
verified_login_example =
    verified_login crates null_pointer 3 before (Call.generate_salt ∷ []) email (encode password)
      (encode salt) server_b server_proof 0 0 (ground arith, tt) proved_by_code verified_by_code
