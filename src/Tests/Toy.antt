-- ===== src/Tests/Toy.antt =====
-- Small concrete crates. They are no cryptography: they are functions that can be run and that
-- behave as the records of `Crates` ask.
use evnx_crypto.Base.Bytes.{Byte, Bytes, Text, to_byte, zeros, all_zero, bytes_eq}
use evnx_crypto.Base.{
  ℕ, suc, ◌+◌, ◌-◌, ◌*◌, inr, Option, none, some, [], ◌∷◌, ◌++◌, not, length, take, drop, replicate,
  ◌==◌, if◌then◌else◌,
}
use evnx_crypto.Crates.Curve.{Ed25519, X25519}
use evnx_crypto.Crates.Kem.{MlKem}
use evnx_crypto.Crates.Random.{Rand}
use evnx_crypto.Crates.Sealing.{Aead}
use evnx_crypto.Crates.Srp.{SrpServer}
use evnx_crypto.Crates.{Crates}

-- The first byte, and the first `n` bytes of a text that is filled up by zeros.
abbrev pub head : Bytes → Byte
head [] = to_byte 0
head (b ∷ _) = b

abbrev pub fit : ℕ → Bytes → Bytes
fit n b = take n (b ++ zeros n)

-- Three bytes to four characters, the fourth of which is the count.
abbrev pub encode : Bytes → Text
encode [] = []
encode (a ∷ []) = a ∷ to_byte 0 ∷ to_byte 0 ∷ to_byte 1 ∷ []
encode (a ∷ b ∷ []) = a ∷ b ∷ to_byte 0 ∷ to_byte 2 ∷ []
encode (a ∷ b ∷ c ∷ r) = a ∷ b ∷ c ∷ to_byte 3 ∷ encode r

abbrev pub prepend : Byte → Byte → Byte → Option Bytes → Option Bytes
prepend a b c none = none
prepend a b c (some r) = some (a ∷ b ∷ c ∷ r)

abbrev pub decode : Text → Option Bytes
decode [] = some []
decode (a ∷ b ∷ c ∷ k ∷ r) =
    let rest = prepend a b c (decode r) in
    if k.0 == 3 then rest else if k.0 == 2 then some (a ∷ b ∷ []) else some (a ∷ [])
decode _ = none

abbrev pub encode_hex : Bytes → Text
encode_hex [] = []
encode_hex (a ∷ r) = a ∷ to_byte 0 ∷ encode_hex r

abbrev pub decode_hex : Text → Option Bytes
decode_hex [] = some []
decode_hex (a ∷ b ∷ r) = elim (decode_hex r) [ none ↦ none | some s ↦ some (a ∷ s) ]
decode_hex _ = none

-- The tag shows the last four bytes of the associated data and the key.
abbrev pub tag : Bytes → Bytes → Bytes
tag k aad = fit 16 (drop (length aad - 4) aad ++ k)

abbrev pub open_sealed : Bytes → Bytes → Bytes → Option Bytes
open_sealed k aad ct =
    let m = take (length ct - 16) ct in if bytes_eq (m ++ tag k aad) ct then some m else none

abbrev pub aead : Aead
aead = record {
  Cipher = Bytes;
  new = λ key. key;
  new_from_slice = λ key. if length key == 32 then some key else none;
  encrypt = λ k nonce aad m. some (m ++ tag k aad);
  decrypt = λ k nonce aad ct. open_sealed k aad ct;
}

-- Each draw gives copies of one byte, and the next draw copies of the next.
abbrev pub rand : Rand
rand = record { Rng = ℕ; fill_bytes = λ n g. (replicate n (to_byte g), suc g) }

-- A public key or a shared secret is a number and a mark.
abbrev pub point_bytes : Byte × Byte → Bytes
point_bytes (a, b) = a ∷ b ∷ zeros 30

abbrev pub point : Bytes → Byte × Byte
point [] = (to_byte 0, to_byte 0)
point (a ∷ []) = (a, to_byte 0)
point (a ∷ b ∷ _) = (a, b)

abbrev pub times : Byte → Byte × Byte → Byte × Byte
times k (a, b) = (to_byte (k.0 * a.0), b)

abbrev pub ed25519 : Ed25519 ℕ
ed25519 = record {
  SigningKey = Byte;
  generate = λ g. (to_byte g, suc g);
  from_bytes = head;
  to_bytes = λ k. replicate 32 k;
  verifying_key = λ k. replicate 32 k;
}

abbrev pub x25519 : X25519 ℕ
x25519 = record {
  StaticSecret = Bytes;
  EphemeralSecret = Byte;
  PublicKey = Byte × Byte;
  SharedSecret = Byte × Byte;
  static_from = λ b. b;
  static_to_bytes = λ s. s;
  random_from_rng = λ g. (to_byte g, suc g);
  static_public = λ s. (head s, to_byte 1);
  ephemeral_public = λ e. (e, to_byte 1);
  public_from = point;
  public_to_bytes = point_bytes;
  static_dh = λ s p. times (head s) p;
  ephemeral_dh = λ e p. times e p;
  was_contributory = λ k. not (all_zero (point_bytes k));
  as_bytes = point_bytes;
}

abbrev pub mlkem : MlKem
mlkem = record {
  DecapsulationKey = Byte;
  EncapsulationKey = Byte;
  Key = Byte;
  from_seed = head;
  encapsulation_key = λ dk. dk;
  to_bytes = λ ek. replicate 1184 ek;
  try_from = λ b. if length b == 1184 then some (head b) else none;
  new = λ k. some k;
  encapsulate_deterministic =
      λ ek r. (replicate 1088 (to_byte (ek.0 + (head r).0)), replicate 32 (head r));
  decapsulate_slice = λ dk ct.
      if length ct == 1088 then some (replicate 32 (to_byte ((head ct).0 + 256 - dk.0))) else none;
  drop = λ dk. zeros 64;
}

-- It is not zero.
abbrev pub public_ephemeral : Bytes → Bytes
public_ephemeral a = to_byte 1 ∷ fit 3 a

abbrev pub crates : Crates
crates = record {
  rand = rand;
  base64 = record { encode = encode; decode = decode };
  hex = record { encode = encode_hex; decode = decode_hex };
  blake3 = record { Hash = Bytes; hash = λ b. fit 32 b; to_hex = encode_hex };
  zeroize = record { zeroize = λ b. zeros (length b) };
  argon2 = record {
    Params = ℕ;
    Context = Bytes;
    new_params = λ m t p n. inr n;
    new_with_secret = λ secret alg v q. inr secret;
    hash_password_into = λ secret password salt n. inr (fit n (password ++ salt));
  };
  hkdf = record {
    State = Bytes;
    extract = λ ikm. ikm;
    expand = λ s info n. some (fit n (info ++ s));
  };
  aes = aead;
  xchacha = aead;
  ed25519 = ed25519;
  x25519 = x25519;
  mlkem = mlkem;
  srp = record {
    Verifier = Bytes;
    compute_verifier = λ user password salt. fit 4 password;
    compute_public_ephemeral = public_ephemeral;
    process_reply = λ a user password salt b. inr (public_ephemeral a ++ (b ++ fit 4 password));
    proof = λ v. v;
    key = λ v. v;
    verify_server = λ v m2. bytes_eq v m2;
    dropped = λ v. v;
  };
}

-- Both sides of a login take the two public values and the verifier for their secret.
abbrev pub srp_server : SrpServer
srp_server = record {
  Verifier = Bytes;
  compute_public_ephemeral = λ b v. fit 4 b;
  process_reply = λ b v a. inr (a ++ (fit 4 b ++ v));
  verify_client = λ y m1. bytes_eq y m1;
  proof = λ y. y;
  key = λ y. y;
}
