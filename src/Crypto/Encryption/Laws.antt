-- ===== src/Crypto/Encryption/Laws.antt =====
-- Decryption as the inverse of encryption, for each of the three schemes.
use aero_nyx_private_ed.Base.{
  ℕ, ◌-◌, ◌≡◌, ◌↔◌, List, ◌++◌, none, some, text_eq, text_iff, text_self, length, take, drop, ok,
  err, arith, length-append, take-drop, append-parts,
}
use aero_nyx_private_ed.Crypto.Encryption.{
  authentication_failed, Aead, CbcHmac, check_key, check_nonce, chosen_nonce, encrypt_chacha20,
  decrypt_chacha20, gcm_encrypt_with, gcm_decrypt_with, encrypt_aes_gcm, decrypt_aes_gcm,
  encrypt_aes, decrypt_aes,
}

module _ (chacha gcm : Aead) where
  -- Decryption under a nonce returns a message just when encryption of that message under that nonce
  -- gives the ciphertext: it undoes every encryption and accepts nothing else.
  pub decrypt_chacha20_iff :
      (c key nonce message drawn : List ℕ)
      → (decrypt_chacha20 chacha gcm c key nonce ≡ ok message)
        ↔ (encrypt_chacha20 chacha gcm message key (some nonce) drawn ≡ ok (c, nonce))
  unfolding encrypt_chacha20 decrypt_chacha20 chosen_nonce check_key check_nonce
  decrypt_chacha20_iff c key nonce message drawn = ground (
    arith,
    chacha.decrypt_encrypt key nonce message c,
    chacha.encrypt_decrypt key nonce c message,
  )

  -- What is encrypted under a drawn nonce of twelve bytes is decrypted under the nonce that comes with
  -- it.
  pub decrypt_chacha20-drawn :
      (c key nonce message drawn : List ℕ)
      → length drawn ≡ 12
      → encrypt_chacha20 chacha gcm message key none drawn ≡ ok (c, nonce)
      → decrypt_chacha20 chacha gcm c key nonce ≡ ok message
  unfolding encrypt_chacha20 decrypt_chacha20 chosen_nonce check_key check_nonce
  decrypt_chacha20-drawn c key nonce message drawn l h =
      ground (arith, chacha.decrypt_encrypt key drawn message c)

  -- Without additional data, AES-GCM with a nonce of twelve bytes is decrypted just by its inverse.
  pub decrypt_aes_gcm_iff :
      (c key nonce message : List ℕ)
      → length nonce ≡ 12
      → (decrypt_aes_gcm chacha gcm c key nonce none ≡ ok message)
        ↔ (encrypt_aes_gcm chacha gcm message key none nonce ≡ ok (c, nonce))
  unfolding encrypt_aes_gcm decrypt_aes_gcm gcm_encrypt_with gcm_decrypt_with check_key check_nonce
  decrypt_aes_gcm_iff c key nonce message l =
      ground
        (arith, gcm.decrypt_encrypt key nonce message c, gcm.encrypt_decrypt key nonce c message)

  -- With additional data that is no ciphertext itself, nothing is decrypted, not even what was
  -- encrypted with the same data.
  pub decrypt_aes_gcm-aad :
      (c key nonce aad : List ℕ)
      → length key ≡ 32
      → length nonce ≡ 12
      → gcm.decrypt key nonce aad ≡ none
      → decrypt_aes_gcm chacha gcm c key nonce (some aad) ≡ err authentication_failed
  unfolding decrypt_aes_gcm gcm_decrypt_with check_key check_nonce
  decrypt_aes_gcm-aad c key nonce aad k l h = ground arith

  -- What is decrypted under a nonce is encrypted again when that nonce is drawn.
  pub encrypt_chacha20-back :
      (c key nonce message : List ℕ)
      → decrypt_chacha20 chacha gcm c key nonce ≡ ok message
      → encrypt_chacha20 chacha gcm message key none nonce ≡ ok (c, nonce)
  unfolding encrypt_chacha20 decrypt_chacha20 chosen_nonce check_key check_nonce
  encrypt_chacha20-back c key nonce message h =
      ground (arith, chacha.encrypt_decrypt key nonce c message)

  pub encrypt_aes_gcm-back :
      (c key nonce message : List ℕ)
      → decrypt_aes_gcm chacha gcm c key nonce none ≡ ok message
      → encrypt_aes_gcm chacha gcm message key none nonce ≡ ok (c, nonce)
  unfolding encrypt_aes_gcm decrypt_aes_gcm gcm_encrypt_with gcm_decrypt_with check_key check_nonce
  encrypt_aes_gcm-back c key nonce message h =
      ground (arith, gcm.encrypt_decrypt key nonce c message)

  -- The nonce that comes with a ciphertext is the one drawn.
  pub encrypt_aes_gcm-nonce :
      (message key drawn c nonce : List ℕ)
      → encrypt_aes_gcm chacha gcm message key none drawn ≡ ok (c, nonce)
      → nonce ≡ drawn
  unfolding encrypt_aes_gcm check_key gcm_encrypt_with
  encrypt_aes_gcm-nonce message key drawn c nonce h = ground arith

module _ (cipher : CbcHmac) where
  -- `decrypt_aes` undoes `encrypt_aes`.
  pub decrypt_aes-encrypt_aes :
      (message key iv encrypted : List ℕ)
      → length iv ≡ 16
      → encrypt_aes cipher message key iv ≡ ok encrypted
      → decrypt_aes cipher encrypted key ≡ ok message
  unfolding encrypt_aes decrypt_aes check_key
  decrypt_aes-encrypt_aes message key iv encrypted l h =
      let b = cipher.cbc_encrypt key iv message in
      let t = cipher.hmac key (iv ++ b) in
      let (front, back, first, middle) =
        append-parts iv b t 32 (cipher.length-hmac key (iv ++ b)) in
      let result : encrypted ≡ (iv ++ b) ++ t = ground arith in
      let first_iv : take 16 encrypted ≡ iv = cc (first, l, result) in
      let middle_b : drop 16 (iv ++ b) ≡ b = cc (middle, l) in
      ground (
        arith,
        result,
        front,
        back,
        first_iv,
        middle_b,
        length-append (iv ++ b) t,
        length-append iv b,
        cipher.length-cbc_encrypt key iv message,
        cipher.length-hmac key (iv ++ b),
        cipher.cbc_decrypt_encrypt key iv message,
        text_self t,
      )

  -- What `decrypt_aes` accepts ends in the tag of all that stands before it.
  pub decrypt_aes-tagged :
      (message key encrypted : List ℕ)
      → decrypt_aes cipher encrypted key ≡ ok message
      → (sealed : List ℕ) × (encrypted ≡ sealed ++ cipher.hmac key sealed)
  unfolding decrypt_aes check_key
  decrypt_aes-tagged message key encrypted h =
      let offset = length encrypted - 32 in
      let same : cipher.hmac key (take offset encrypted) ≡ drop offset encrypted =
        (text_iff (cipher.hmac key (take offset encrypted)) (drop offset encrypted)).0
          (ground arith) in
      (take offset encrypted, ground (arith, take-drop offset encrypted, same))
