-- ===== src/Crypto/Primitives.antt =====
-- The primitives of third_party/monocypher.h that crypto/nc_crypto.c calls, and what it relies on.
use netchan.Base.{ℕ, ◌≡◌, Bool, true, Option, some, length, List}

-- crypto_x25519 (secret, peer's public), crypto_x25519_public_key, BLAKE2b with a 32-byte digest over
-- the concatenation of the updates, crypto_verify32 as a test, and crypto_aead_lock (key, nonce,
-- plain), which yields the mac and the ciphertext, with crypto_aead_unlock (key, nonce, mac, cipher).
pub record Monocypher : Type 0 where
  pub x25519 : List ℕ → List ℕ → List ℕ
  pub x25519_public_key : List ℕ → List ℕ
  pub blake2b : List ℕ → List ℕ
  pub verify32 : List ℕ → List ℕ → Bool
  pub aead_lock : List ℕ → List ℕ → List ℕ → List ℕ × List ℕ
  pub aead_unlock : List ℕ → List ℕ → List ℕ → List ℕ → Option (List ℕ)

-- What monocypher documents: a shared secret is the same from both ends, keys have 32 bytes and macs
-- 16, a ciphertext is as long as its plaintext, unlocking inverts locking, and crypto_verify32 finds
-- an array equal to itself.
pub record IsLawful (M : Monocypher) : Type 0 where
  pub x25519_comm :
      (a b : List ℕ) → M.x25519 a (M.x25519_public_key b) ≡ M.x25519 b (M.x25519_public_key a)
  pub length-public_key : (a : List ℕ) → length (M.x25519_public_key a) ≡ 32
  pub verify32_self : (a : List ℕ) → M.verify32 a a ≡ true
  pub length-mac : (k n p : List ℕ) → length (M.aead_lock k n p).0 ≡ 16
  pub length-cipher : (k n p : List ℕ) → length (M.aead_lock k n p).1 ≡ length p
  pub unlock-lock :
      (k n p : List ℕ) → M.aead_unlock k n (M.aead_lock k n p).0 (M.aead_lock k n p).1 ≡ some p
