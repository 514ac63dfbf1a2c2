-- ===== src/Srp/Drop.antt =====
-- The drops that `ZeroizeOnDrop` derives in src/srp.rs, and the `Debug` text of a proof.
use evnx_crypto.Base.Bytes.{Bytes}
use evnx_crypto.Base.Decimal.{decimal}
use evnx_crypto.Base.{List, [], ◌∷◌, String, ◌<>◌, length}
use evnx_crypto.Crates.{Crates}
use evnx_crypto.Srp.Types.{SrpClientEphemeral, SrpClientProof}
use evnx_crypto.Zeroize.Released.{Released, buffer, skipped}

module _ (c : Crates) where
  -- What the memory of both values holds when it is released.
  unfoldable pub drop_ephemeral : SrpClientEphemeral → List Released
  drop_ephemeral e =
      buffer (c.zeroize.zeroize e.private_a) ∷ buffer (c.zeroize.zeroize e.public_a) ∷ []

  -- The verifier, with the session key in it, is skipped: its memory is as the crate leaves it.
  unfoldable pub drop_proof : SrpClientProof c → List Released
  drop_proof p = buffer (c.zeroize.zeroize p.client_proof) ∷ skipped (c.srp.dropped p.verifier) ∷ []

  -- `format!("<{} bytes>", n)`, as the derived layout of `debug_struct` quotes it.
  sized : Bytes → String
  sized b = "\"<" <> decimal (length b) <> " bytes>\""

  unfoldable pub debug : SrpClientProof c → String
  unfolding sized
  debug p =
      "SrpClientProof { client_proof: "
      <> sized p.client_proof
      <> ", session_key: "
      <> sized (c.srp.key p.verifier)
      <> " }"
