-- ===== src/Tests/ToyLaws.antt =====
-- The concrete crates behave as documented.
use evnx_crypto.Base.Bytes.{
  Byte, Byte-eq, Bytes, to_byte, zeros, bytes_eq, bytes_eq_refl, bytes_eq→eq,
}
use evnx_crypto.Base.{
  ℕ, ◌+◌, ◌%◌, sym, ◌-◌, ◌*◌, ◌/◌, ◌≡◌, refl, ap, some, none, inr, eq→==, ==→eq, Bool, [], ◌∷◌,
  ◌++◌, length, length-append, length-take, length-replicate, take, take-append, replicate, true,
  arith, ◌==◌, inr, false, if◌then◌else◌,
}
use evnx_crypto.Crates.Coding.{IsBase64, IsHex, IsWiping}
use evnx_crypto.Crates.Curve.{IsEd25519, IsX25519}
use evnx_crypto.Crates.Kdf.{IsArgon2, IsHkdf}
use evnx_crypto.Crates.Kem.{IsMlKem, Decapsulates}
use evnx_crypto.Crates.Random.{IsFilling}
use evnx_crypto.Crates.Sealing.{IsAead}
use evnx_crypto.Crates.Srp.{IsSrp}
use evnx_crypto.Tests.Toy.{
  crates, rand, aead, ed25519, x25519, mlkem, encode, decode, encode_hex, decode_hex, fit, tag,
  open_sealed, head, srp_server, public_ephemeral,
}
use native.Mathlib.Nat.{mul_comm}

length-fit : (n : ℕ) (b : Bytes) → length (fit n b) ≡ n
length-fit n b =
    omega (
      arith,
      length-take n (b ++ zeros n),
      length-append b (zeros n),
      length-replicate n (to_byte 0),
    )

decode-encode : (b : Bytes) → decode (encode b) ≡ some b
decode-encode [] = refl
decode-encode (a ∷ []) = refl
decode-encode (a ∷ b ∷ []) = refl
decode-encode (a ∷ b ∷ c ∷ r) = rw (decode-encode r)

length-encode : (b : Bytes) → length (encode b) ≡ 4 * ((length b + 2) / 3)
length-encode [] = refl
length-encode (a ∷ []) = refl
length-encode (a ∷ b ∷ []) = refl
length-encode (a ∷ b ∷ c ∷ r) = omega (arith, length-encode r)

pub base64-IsBase64 : IsBase64 crates.base64
base64-IsBase64 = record { decode-encode = decode-encode; length-encode = length-encode }

decode_hex-encode_hex : (b : Bytes) → decode_hex (encode_hex b) ≡ some b
decode_hex-encode_hex [] = refl
decode_hex-encode_hex (a ∷ r) = rw (decode_hex-encode_hex r)

pub hex-IsHex : IsHex crates.hex
hex-IsHex = record { decode-encode = decode_hex-encode_hex }

pub zeroize-IsWiping : IsWiping crates.zeroize
zeroize-IsWiping = record { zeroize-zeros = λ b. refl }

pub rand-IsFilling : IsFilling rand
rand-IsFilling = record { length-fill_bytes = λ n g. length-replicate n (to_byte g) }

pub argon2-IsArgon2 : IsArgon2 crates.argon2
argon2-IsArgon2 = record {
  new_params_ok = λ m t p n _ _ _ _ _ _ _. (n, refl);
  new_with_secret_ok = λ secret alg v q _. (secret, refl);
  hash_password_into_ok = λ x password salt n _ _ _ _ _. (fit n (password ++ salt), refl);
  length-hash_password_into = λ x password salt n out e. hash_length x password salt n out e;
}
  where
    hash_length :
        (x password salt : Bytes) (n : ℕ) (out : Bytes)
        → crates.argon2.hash_password_into x password salt n ≡ inr out
        → length out ≡ n
    hash_length x password salt n out e =
        let same : fit n (password ++ salt) ≡ out = cc in
        rw same at (length-fit n (password ++ salt))

pub hkdf-IsHkdf : IsHkdf crates.hkdf
hkdf-IsHkdf = record {
  expand_ok = λ s info n _. (fit n (info ++ s), refl);
  length-expand = λ s info n out e. expand_length s info n out e;
}
  where
    expand_length :
        (s info : Bytes) (n : ℕ) (out : Bytes)
        → crates.hkdf.expand s info n ≡ some out
        → length out ≡ n
    expand_length s info n out e =
        let same : fit n (info ++ s) ≡ out = cc in rw same at (length-fit n (info ++ s))

length-sealed : (k aad m : Bytes) → length (m ++ tag k aad) ≡ length m + 16
length-sealed k aad m = omega (arith, length-append m (tag k aad), length-fit 16 _)

open_sealed-tag : (k aad m : Bytes) → open_sealed k aad (m ++ tag k aad) ≡ some m
open_sealed-tag k aad m =
    let n : length (m ++ tag k aad) - 16 ≡ length m = omega (arith, length-sealed k aad m) in
    rw (n, take-append (length m) m (tag k aad) refl, bytes_eq_refl (m ++ tag k aad))

guarded :
    (b : Bool) (x : Bytes) {m : Bytes}
    → (if b then some x else none) ≡ some m
    → (b ≡ true) × (x ≡ m)
guarded true x e = (refl, cc)
guarded false x e = cc

open_sealed-eq_some : (k aad ct m : Bytes) → open_sealed k aad ct ≡ some m → m ++ tag k aad ≡ ct
open_sealed-eq_some k aad ct m e =
    let x = take (length ct - 16) ct in
    let (t, same) = guarded (bytes_eq (x ++ tag k aad) ct) x e in
    rw (← same) (bytes_eq→eq (x ++ tag k aad) ct t)

pub aead-IsAead : IsAead aead
aead-IsAead = record {
  new_from_slice_ok = λ key n. (key, rw (eq→== (length key) 32 n));
  encrypt_ok = λ k nonce aad m _ _. (m ++ tag k aad, refl);
  length-encrypt = λ k nonce aad m ct e. sealed_length k aad m ct e;
  decrypt-encrypt = λ k nonce aad m ct e. unseal k aad m ct e;
  encrypt-decrypt = λ k nonce aad ct m e. ap some (open_sealed-eq_some k aad ct m e);
}
  where
    sealed_length :
        (k aad m ct : Bytes) → some (m ++ tag k aad) ≡ some ct → length ct ≡ length m + 16
    sealed_length k aad m ct e =
        let same : m ++ tag k aad ≡ ct = (guarded true (m ++ tag k aad) e).1 in
        rw same at (length-sealed k aad m)

    unseal : (k aad m ct : Bytes) → some (m ++ tag k aad) ≡ some ct → open_sealed k aad ct ≡ some m
    unseal k aad m ct e =
        let same : m ++ tag k aad ≡ ct = (guarded true (m ++ tag k aad) e).1 in
        rw same at (open_sealed-tag k aad m)

pub ed25519-IsEd25519 : IsEd25519 ed25519
ed25519-IsEd25519 = record {
  length-to_bytes = λ k. length-replicate 32 k;
  length-verifying_key = λ k. length-replicate 32 k;
  from_bytes-to_bytes = λ k. refl;
}

pub x25519-IsX25519 : IsX25519 x25519
x25519-IsX25519 = record {
  static_to_bytes-static_from = λ b n. refl;
  length-public_to_bytes = λ p. refl;
  length-as_bytes = λ k. refl;
  public_from-public_to_bytes = λ p. refl;
  dh_comm = λ e s. ap (λ n. (to_byte n, to_byte 1)) (mul_comm e.0 (head s).0);
  was_contributory_lem = λ k. refl;
  was_contributory_honest = λ e s. marked (e.0 * (head s).0);
}
  where
    marked : (n : ℕ) → x25519.was_contributory (to_byte n, to_byte 1) ≡ true
    marked n = ground arith

pub mlkem-IsMlKem : IsMlKem mlkem
mlkem-IsMlKem = record {
  length-to_bytes = λ ek. length-replicate 1184 ek;
  new-to_bytes = λ ek. (ek, refl, refl);
  length-ciphertext = λ ek r. length-replicate 1088 (to_byte (ek.0 + (head r).0));
  length-secret = λ ek r. length-replicate 32 (head r);
  decapsulate_slice_ok =
      λ dk ct n. (replicate 32 (to_byte ((head ct).0 + 256 - dk.0)), rw (eq→== (length ct) 1088 n));
  decapsulate_slice_length = λ dk ct ss e. decapsulated dk ct ss e;
  drop-zeros = λ dk. refl;
}
  where
    decapsulated :
        (dk : Byte) (ct ss : Bytes)
        → mlkem.decapsulate_slice dk ct ≡ some ss
        → (length ct ≡ 1088) × (length ss ≡ 32)
    decapsulated dk ct ss e =
        let secret = replicate 32 (to_byte ((head ct).0 + 256 - dk.0)) in
        let (t, same) = guarded (length ct == 1088) secret e in
        (
          ==→eq (length ct) 1088 t,
          rw (← same) (length-replicate 32 (to_byte ((head ct).0 + 256 - dk.0))),
        )

pub srp-IsSrp : IsSrp crates.srp srp_server
srp-IsSrp = record {
  compute_public_ephemeral_nonzero = λ a. refl;
  exchange = λ a b user password salt _.
      agreed (public_ephemeral a ++ (fit 4 b ++ fit 4 password)) a b user password salt refl;
}
  where
    agreed :
        (secret a b user password salt : Bytes)
        → secret ≡ public_ephemeral a ++ (fit 4 b ++ fit 4 password)
        → let v = crates.srp.compute_verifier user password salt in
          (x : Bytes) × (y : Bytes) × (crates.srp.process_reply a user password salt
              (srp_server.compute_public_ephemeral b v)
            ≡ inr x)
          × (srp_server.process_reply b v (crates.srp.compute_public_ephemeral a) ≡ inr y)
          × (srp_server.verify_client y (crates.srp.proof x) ≡ true)
          × (crates.srp.verify_server x (srp_server.proof y) ≡ true)
    agreed secret a b user password salt e =
        (secret, secret, ap inr (sym e), ap inr (sym e), bytes_eq_refl secret, bytes_eq_refl secret)

-- Its decapsulation is correct for every draw.
pub mlkem-Decapsulates : (dk : Byte) (r : Bytes) → Decapsulates mlkem dk r
mlkem-Decapsulates dk r =
    let (k, hk) = dk in
    let (n, hn) = head r in
    ap (λ a. some (replicate 32 a))
      (Byte-eq (to_byte ((k + n) % 256 + 256 - k)) (n, hn) (omega arith))
