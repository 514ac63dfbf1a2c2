-- ===== src/Keypair/UserPublicKeys.antt =====
-- `UserPublicKeys::from_base64` of src/keypair.rs.
use evnx_crypto.Base.Bytes.{Text}
use evnx_crypto.Base.Outcome.{ok, ◌>>=◌}
use evnx_crypto.Crates.{Crates}
use evnx_crypto.Errors.{Result}
use evnx_crypto.Keypair.MlKem768PublicKey as MlKem
use evnx_crypto.Keypair.X25519PublicKeyBytes as X25519
use evnx_crypto.Keypair.Types.{UserPublicKeys}

unfoldable pub from_base64 : Crates → Text → Text → Result UserPublicKeys
from_base64 c x25519_b64 mlkem_b64 = do
  x25519 ← X25519.from_base64 c x25519_b64
  mlkem ← MlKem.from_base64 c mlkem_b64
  ok (record { x25519 = x25519; mlkem = mlkem })
