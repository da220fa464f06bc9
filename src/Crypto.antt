-- ===== src/Crypto.antt =====
-- crypto/keys.rs and crypto/aead.rs. The primitives are a parameter: BLAKE3, X25519 and
-- XChaCha20-Poly1305 of the packages the crate uses.
use ppo_se_protocol.Common.{
  ℕ, ◌+◌, ◌≤◌, ◌^◌, ◌≡◌, Option, none, some, List, length, Result, ok, err,
}

pub record Primitives : Type 0 where
  pub blake3 : List ℕ → List ℕ
  -- `PublicKey::from` of a secret, and X25519 of a secret and a public key.
  pub public_key : List ℕ → List ℕ
  pub diffie_hellman : List ℕ → List ℕ → List ℕ
  -- Key, nonce, associated data, message.
  pub encrypt : List ℕ → List ℕ → List ℕ → List ℕ → Option (List ℕ)
  pub decrypt : List ℕ → List ℕ → List ℕ → List ℕ → Option (List ℕ)

-- What the packages document: public keys have 32 bytes, the two sides of an exchange agree,
-- encryption takes any message that fits memory and adds a 16-byte tag, and decryption under the
-- same key, nonce and associated data inverts it.
pub record IsSound (prims : Primitives) : Type 0 where
  pub length_public_key : (secret : List ℕ) → length (prims.public_key secret) ≡ 32
  pub agrees :
      (secret other : List ℕ)
      → prims.diffie_hellman secret (prims.public_key other)
        ≡ prims.diffie_hellman other (prims.public_key secret)
  pub encrypts :
      (key nonce aad msg : List ℕ)
      → length msg ≤ 2 ^ 32
      → (ct : List ℕ) × (prims.encrypt key nonce aad msg ≡ some ct)
  pub length_encrypt :
      (key nonce aad msg ct : List ℕ)
      → prims.encrypt key nonce aad msg ≡ some ct
      → length ct ≡ 16 + length msg
  pub decrypts :
      (key nonce aad msg ct : List ℕ)
      → prims.encrypt key nonce aad msg ≡ some ct
      → prims.decrypt key nonce aad ct ≡ some msg

pub data AeadError : Type 0 where
  encrypt_failed decrypt_failed bad_nonce : AeadError

module _ (prims : Primitives) where
  unfoldable pub seal : List ℕ → List ℕ → List ℕ → List ℕ → Result AeadError (List ℕ)
  seal key nonce aad plaintext = elim (prims.encrypt key nonce aad plaintext) [
    | none ↦ err encrypt_failed
    | some ct ↦ ok ct
  ]

  unfoldable pub open_sealed : List ℕ → List ℕ → List ℕ → List ℕ → Result AeadError (List ℕ)
  open_sealed key nonce aad ciphertext = elim (prims.decrypt key nonce aad ciphertext) [
    | none ↦ err decrypt_failed
    | some plain ↦ ok plain
  ]

  -- `IdentitySecret::public` and `shared_with`; identities are their raw bytes.
  abbrev pub public : List ℕ → List ℕ
  public secret = prims.public_key secret

  abbrev pub shared_with : List ℕ → List ℕ → List ℕ
  shared_with secret peer = prims.diffie_hellman secret peer

  unfoldable pub fingerprint : List ℕ → List ℕ
  fingerprint identity = prims.blake3 identity
