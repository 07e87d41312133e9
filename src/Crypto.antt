-- ===== src/Crypto.antt =====
-- The cryptographic wrappers: VPN/src/enclave/crypto.c. libsodium is a parameter: its functions as
-- the source calls them, and what its documentation promises of them.
use Prim.Native.Nat.{bit_xor}
use cloud_service.Base.{ℕ, zero, suc, ◌+◌, ◌≡◌, ◌≢◌, Option, none, some, [], ◌∷◌, length, refl, ap}
use cloud_service.Wire.{Bytes}

abbrev pub crypto_key_size : ℕ
crypto_key_size = 32

abbrev pub crypto_nonce_size : ℕ
crypto_nonce_size = 12

abbrev pub crypto_mac_size : ℕ
crypto_mac_size = 16

-- `none` is a return value other than 0; `some` is what the function wrote.
pub record Sodium : Type 0 where
  -- key, nonce, text
  pub aead_encrypt : Bytes → Bytes → Bytes → Option Bytes
  pub aead_decrypt : Bytes → Bytes → Bytes → Option Bytes
  -- public key, private key
  pub box_beforenm : Bytes → Bytes → Option Bytes
  -- length, subkey, context, master key
  pub kdf_derive_from_key : ℕ → ℕ → Bytes → Bytes → Bytes

-- ChaCha20-Poly1305: encryption always succeeds and adds 16 bytes; decryption undoes it, and takes
-- 16 bytes off whatever it accepts.
pub record AeadLaws (s : Sodium) : Type 0 where
  pub encrypt_succeeds : (key nonce text : Bytes) → s.aead_encrypt key nonce text ≢ none
  pub encrypt_length :
      (key nonce text c : Bytes)
      → s.aead_encrypt key nonce text ≡ some c
      → length c ≡ length text + crypto_mac_size
  pub decrypt_length :
      (key nonce c text : Bytes)
      → s.aead_decrypt key nonce c ≡ some text
      → length c ≡ length text + crypto_mac_size
  pub decrypt_encrypt :
      (key nonce text c : Bytes)
      → s.aead_encrypt key nonce text ≡ some c
      → s.aead_decrypt key nonce c ≡ some text

-- X25519: for two key pairs, each side computes the same secret; a derived key has the length asked.
pub record ExchangeLaws (s : Sodium) (public_of : Bytes → Bytes) : Type 0 where
  pub secret_comm : (a b : Bytes) → s.box_beforenm (public_of b) a ≡ s.box_beforenm (public_of a) b
  pub kdf_length :
      (n subkey : ℕ) (context master : Bytes)
      → length (s.kdf_derive_from_key n subkey context master) ≡ n

-- "VPN_SESS"
abbrev pub session_context : Bytes
session_context = b'V' ∷ b'P' ∷ b'N' ∷ b'_' ∷ b'S' ∷ b'E' ∷ b'S' ∷ b'S' ∷ []

-- `for (i = 0; i < n && i < salt_len; i++) key[i] ^= salt[i]`
unfoldable pub xor_salt : ℕ → Bytes → Bytes → Bytes
xor_salt zero key salt = key
xor_salt (suc n) [] salt = []
xor_salt (suc n) (k ∷ key) [] = k ∷ key
xor_salt (suc n) (k ∷ key) (x ∷ salt) = bit_xor k x ∷ xor_salt n key salt

module _ (s : Sodium) where
  unfoldable pub crypto_encrypt : Bytes → Bytes → Bytes → Option Bytes
  crypto_encrypt text key nonce = s.aead_encrypt key nonce text

  unfoldable pub crypto_decrypt : Bytes → Bytes → Bytes → Option Bytes
  crypto_decrypt text key nonce = s.aead_decrypt key nonce text

  unfoldable pub crypto_ecdh : Bytes → Bytes → Option Bytes
  crypto_ecdh my_private_key their_public_key = s.box_beforenm their_public_key my_private_key

  -- A null salt is the empty list.
  unfoldable pub crypto_derive_session_key : Bytes → Bytes → Bytes
  unfolding xor_salt
  crypto_derive_session_key shared_secret salt =
      xor_salt crypto_key_size
        (s.kdf_derive_from_key crypto_key_size 1 session_context shared_secret) salt

pub length-xor_salt : (n : ℕ) (key salt : Bytes) → length (xor_salt n key salt) ≡ length key
unfolding xor_salt
length-xor_salt zero key salt = refl
length-xor_salt (suc n) [] salt = refl
length-xor_salt (suc n) (k ∷ key) [] = refl
length-xor_salt (suc n) (k ∷ key) (x ∷ salt) = ap suc (length-xor_salt n key salt)

pub xor_salt-nil : (n : ℕ) (key : Bytes) → xor_salt n key [] ≡ key
unfolding xor_salt
xor_salt-nil zero key = refl
xor_salt-nil (suc n) [] = refl
xor_salt-nil (suc n) (k ∷ key) = refl
