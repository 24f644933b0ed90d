-- ===== src/Crypto/Encryption.antt =====
-- src/crypto/encryption.rs: the tests and the layout around the ciphers. The ciphers themselves come
-- from the crates `chacha20poly1305`, `aes_gcm`, `cbc` and `hmac` and are parameters. Random nonces
-- and initialization vectors are arguments; `encrypt` and `decrypt` take the key, the nonce and the
-- message, and are `none` where the crate returns an error.
pub mod Laws
use aero_nyx_private_ed.Base.{
  ℕ, ◌+◌, ◌-◌, ◌≤◌, ◌≡◌, List, [], ◌∷◌, ◌++◌, Option, none, some, Bool, true, false, not, Text,
  text_eq, ◌==◌, ltb, nat_beq, if◌then◌else◌, length, take, drop, slice, Result, ok, err, map_err,
  ok_or, reject_if, ◌>>=◌, ◌>>◌,
}

pub data EncryptionError : Type 0 where
  invalid_key_length : ℕ → EncryptionError
  invalid_nonce_length : ℕ → EncryptionError
  too_short encryption_failed decryption_failed authentication_failed : EncryptionError

-- An authenticated cipher: what it encrypts it decrypts, and it decrypts nothing else.
pub record Aead : Type 0 where
  pub encrypt : List ℕ → List ℕ → List ℕ → Option (List ℕ)
  pub decrypt : List ℕ → List ℕ → List ℕ → Option (List ℕ)
  pub decrypt_encrypt :
      (key nonce message c : List ℕ)
      → encrypt key nonce message ≡ some c
      → decrypt key nonce c ≡ some message
  pub encrypt_decrypt :
      (key nonce c message : List ℕ)
      → decrypt key nonce c ≡ some message
      → encrypt key nonce message ≡ some c

-- AES-256 in CBC mode with PKCS #7 padding, and HMAC with SHA-256.
pub record CbcHmac : Type 0 where
  pub cbc_encrypt : List ℕ → List ℕ → List ℕ → List ℕ
  pub cbc_decrypt : List ℕ → List ℕ → List ℕ → Option (List ℕ)
  pub hmac : List ℕ → List ℕ → List ℕ
  pub cbc_decrypt_encrypt :
      (key iv message : List ℕ) → cbc_decrypt key iv (cbc_encrypt key iv message) ≡ some message
  pub length-cbc_encrypt : (key iv message : List ℕ) → 16 ≤ length (cbc_encrypt key iv message)
  pub length-hmac : (key message : List ℕ) → length (hmac key message) ≡ 32

-- The tests that every function of the module makes of the key, and of a nonce it is given.
check_key : List ℕ → Result EncryptionError (Unit {0})
check_key key = reject_if (not (nat_beq (length key) 32)) (invalid_key_length (length key))

check_nonce : List ℕ → Result EncryptionError (Unit {0})
check_nonce nonce =
    reject_if (not (nat_beq (length nonce) 12)) (invalid_nonce_length (length nonce))

module _ (chacha gcm : Aead) where
  -- The nonce that `encrypt_chacha20` uses: the caller's, or else the drawn one.
  chosen_nonce : Option (List ℕ) → List ℕ → Result EncryptionError (List ℕ)
  unfolding check_nonce
  chosen_nonce none drawn = ok drawn
  chosen_nonce (some nonce) drawn = do check_nonce nonce; ok nonce

  pub encrypt_chacha20 :
      List ℕ → List ℕ → Option (List ℕ) → List ℕ → Result EncryptionError (List ℕ × List ℕ)
  unfolding check_key chosen_nonce
  encrypt_chacha20 message key nonce_bytes drawn = do
    check_key key
    nonce ← chosen_nonce nonce_bytes drawn
    c ← ok_or (chacha.encrypt key nonce message) encryption_failed
    ok (c, nonce)

  pub decrypt_chacha20 : List ℕ → List ℕ → List ℕ → Result EncryptionError (List ℕ)
  unfolding check_key check_nonce
  decrypt_chacha20 ciphertext key nonce = do
    check_key key
    check_nonce nonce
    ok_or (chacha.decrypt key nonce ciphertext) authentication_failed

  -- With additional data, the source encrypts it under the same nonce, drops the result, and encrypts
  -- the message.
  gcm_encrypt_with : Option (List ℕ) → List ℕ → List ℕ → List ℕ → Option (List ℕ)
  gcm_encrypt_with none key nonce message = gcm.encrypt key nonce message
  gcm_encrypt_with (some aad) key nonce message = elim (gcm.encrypt key nonce aad) [
    | none ↦ none
    | some _ ↦ gcm.encrypt key nonce message
  ]

  unfoldable pub encrypt_aes_gcm :
      List ℕ → List ℕ → Option (List ℕ) → List ℕ → Result EncryptionError (List ℕ × List ℕ)
  unfolding check_key gcm_encrypt_with
  encrypt_aes_gcm plaintext key aad nonce = do
    check_key key
    c ← ok_or (gcm_encrypt_with aad key nonce plaintext) encryption_failed
    ok (c, nonce)

  -- With additional data, the source decrypts it as if it were a ciphertext, and then the ciphertext.
  gcm_decrypt_with : Option (List ℕ) → List ℕ → List ℕ → List ℕ → Option (List ℕ)
  gcm_decrypt_with none key nonce ciphertext = gcm.decrypt key nonce ciphertext
  gcm_decrypt_with (some aad) key nonce ciphertext = elim (gcm.decrypt key nonce aad) [
    | none ↦ none
    | some _ ↦ gcm.decrypt key nonce ciphertext
  ]

  pub decrypt_aes_gcm : List ℕ → List ℕ → List ℕ → Option (List ℕ) → Result EncryptionError (List ℕ)
  unfolding check_key check_nonce gcm_decrypt_with
  decrypt_aes_gcm ciphertext key nonce aad = do
    check_key key
    check_nonce nonce
    ok_or (gcm_decrypt_with aad key nonce ciphertext) authentication_failed

module _ (cipher : CbcHmac) where
  pub encrypt_aes : List ℕ → List ℕ → List ℕ → Result EncryptionError (List ℕ)
  unfolding check_key
  encrypt_aes message shared_secret iv = do
    check_key shared_secret
    let sealed = iv ++ cipher.cbc_encrypt shared_secret iv message
    ok (sealed ++ cipher.hmac shared_secret sealed)

  pub decrypt_aes : List ℕ → List ℕ → Result EncryptionError (List ℕ)
  unfolding check_key
  decrypt_aes encrypted shared_secret = do
    check_key shared_secret
    reject_if (ltb (length encrypted) 49) too_short
    let hmac_offset = length encrypted - 32
    let authenticated_part = take hmac_offset encrypted
    reject_if (not (cipher.hmac shared_secret authenticated_part == drop hmac_offset encrypted))
        authentication_failed
    let iv = take 16 encrypted
    let ciphertext = slice encrypted 16 hmac_offset
    ok_or (cipher.cbc_decrypt shared_secret iv ciphertext) decryption_failed
