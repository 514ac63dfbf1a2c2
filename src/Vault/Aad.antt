-- ===== src/Vault/Aad.antt =====
-- The encoding `vault_aad` of src/vault.rs.
use evnx_crypto.Base.{
  ℕ, ◌+◌, ◌%◌, ◌^◌, ◌<◌, ◌≡◌, refl, ap, ◌++◌, length, length-append, append-injective, arith,
}
use evnx_crypto.Base.Bytes.{Text, ascii}
use evnx_crypto.Base.Words.{u16_be, u32_be, u32_be-injective}
use evnx_crypto.Vault.Identity.{vault_aad}

pub length-vault_aad : (id : Text) (v : ℕ) → length (vault_aad id v) ≡ length id + 10
unfolding vault_aad
length-vault_aad id v = omega (arith, length-append id (u32_be v))

-- The associated data of two vault ids and two versions, both versions below 2 ^ 32, are equal only
-- if the ids are equal and the versions are. The ids may have any length, also one that the field
-- of 16 bits cannot hold.
pub vault_aad-injective :
    (id id' : Text) (v v' : ℕ)
    → v < 2 ^ 32
    → v' < 2 ^ 32
    → vault_aad id v ≡ vault_aad id' v'
    → (id ≡ id') × (v ≡ v')
unfolding vault_aad
vault_aad-injective id id' v v' h h' e =
    let n : length id ≡ length id' =
      omega (arith, length-vault_aad id v, length-vault_aad id' v', ap length e) in
    let (_, e1) =
      append-injective (ascii "evnx" ++ u16_be (length id % 2 ^ 16))
        (ascii "evnx" ++ u16_be (length id' % 2 ^ 16)) _ _ refl e in
    let (ids, vs) = append-injective id id' (u32_be v) (u32_be v') n e1 in
    (ids, u32_be-injective v v' h h' vs)
