-- ===== src/Tests/Wire.antt =====
-- The login steps of src/srp.rs on concrete values.
use evnx_crypto.Base.Bytes.{Bytes, Text, ascii, to_byte}
use evnx_crypto.Base.Outcome.{ok}
use evnx_crypto.Base.{◌++◌, ◌≡◌, refl, take, replicate}
use evnx_crypto.Srp.Ephemeral.{generate_client_ephemeral}
use evnx_crypto.Srp.Steps.{compute_client_proof, verify_server_proof}
use evnx_crypto.Srp.Types.{SrpClientEphemeral, SrpClientProof}
use evnx_crypto.Tests.Data.{salt, password}
use evnx_crypto.Tests.Toy.{crates, public_ephemeral}

abbrev private_a : Bytes
private_a = replicate 64 (to_byte 3)

abbrev ephemeral : SrpClientEphemeral
ephemeral = record { private_a = private_a; public_a = public_ephemeral private_a }

abbrev server_b : Bytes
server_b = ascii "server"

abbrev email : Text
email = ascii "a@b.c"

-- What both sides prove.
abbrev established : Bytes
established = public_ephemeral private_a ++ (server_b ++ take 4 password)

abbrev proof : SrpClientProof crates
proof = record { client_proof = established; verifier = established }

drawn_by_code : generate_client_ephemeral crates 3 ≡ (ok ephemeral, 4)
unfolding generate_client_ephemeral
drawn_by_code = refl

proved_by_code : compute_client_proof crates email password salt server_b ephemeral ≡ ok proof
unfolding compute_client_proof
proved_by_code = refl

verified_by_code : verify_server_proof crates established proof ≡ ok tt
unfolding verify_server_proof
verified_by_code = refl
