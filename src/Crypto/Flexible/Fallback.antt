-- ===== src/Crypto/Flexible/Fallback.antt =====
-- Round trips through the chosen algorithm, and what the fallback may return.
use aero_nyx_private_ed.Base.{
  ℕ, ◌≡◌, refl, ◌⊎◌, inl, inr, List, Option, none, some, Bool, true, false, length, Result, ok, err,
  arith, list_beq, Result-cases,
}
use aero_nyx_private_ed.Crypto.Encryption.{EncryptionError, Aead, encrypt_chacha20, encrypt_aes_gcm}
use aero_nyx_private_ed.Crypto.Encryption.Laws.{
  decrypt_chacha20-drawn, decrypt_aes_gcm_iff, encrypt_aes_gcm-nonce, encrypt_chacha20-back,
  encrypt_aes_gcm-back,
}
use aero_nyx_private_ed.Crypto.Flexible.{
  EncryptionAlgorithm, cha_cha20_poly1305, aes256_gcm, from_str, as_str, to_lowercase,
  EncryptedPacket, other, sealed, encrypt_flexible, decrypt_with, decrypt_flexible, encrypt_packet,
  decrypt_packet, unwrap_or_default, encrypt_session_key_flexible, decrypt_session_key_flexible,
}

-- The name that a packet carries is parsed back to its algorithm.
pub from_str-as_str : (a : EncryptionAlgorithm) → from_str (as_str a) ≡ some a
unfolding from_str as_str to_lowercase list_beq
from_str-as_str cha_cha20_poly1305 = refl
from_str-as_str aes256_gcm = refl

module _ (chacha gcm : Aead) where
  sealed-ok :
      (a : EncryptionAlgorithm) (r : Result EncryptionError (List ℕ × List ℕ)) (p : EncryptedPacket)
      → sealed chacha gcm a r ≡ ok p
      → (r ≡ ok (p.payload, p.nonce)) × (p.algorithm ≡ a)
  unfolding sealed
  sealed-ok a (ok (c, n)) p h = ground arith
  sealed-ok a (err e) p h = cc

  decrypt_with-sealed :
      (message key drawn : List ℕ) (a : EncryptionAlgorithm) (aad : Option (List ℕ))
      (p : EncryptedPacket)
      → length drawn ≡ 12
      → (a ≡ cha_cha20_poly1305) ⊎ (aad ≡ none)
      → encrypt_flexible chacha gcm message key a aad drawn ≡ ok p
      → (p.algorithm ≡ a) × (decrypt_with chacha gcm a p.payload p.nonce key aad ≡ ok message)
  unfolding encrypt_flexible decrypt_with
  decrypt_with-sealed message key drawn cha_cha20_poly1305 aad p l plain h =
      let (r, named) =
        sealed-ok cha_cha20_poly1305 (encrypt_chacha20 chacha gcm message key none drawn) p h in
      (named, decrypt_chacha20-drawn chacha gcm p.payload key p.nonce message drawn l r)
  decrypt_with-sealed message key drawn aes256_gcm (some aad) p l plain h = elim plain [
    | inl e ↦ cc e
    | inr e ↦ cc e
  ]
  decrypt_with-sealed message key drawn aes256_gcm none p l plain h =
      let (r, named) =
        sealed-ok aes256_gcm (encrypt_aes_gcm chacha gcm message key none drawn) p h in
      let same = encrypt_aes_gcm-nonce chacha gcm message key drawn p.payload p.nonce r in
      (
        named,
        (decrypt_aes_gcm_iff chacha gcm p.payload key p.nonce message (cc (l, same))).1
            (cc (r, same)),
      )

  -- A packet that was encrypted under a nonce of twelve bytes, by ChaCha20 or without additional data,
  -- is decrypted with the same key and additional data under the algorithm it names, with the fallback
  -- or without.
  pub decrypt_flexible-encrypt_flexible :
      (message key drawn : List ℕ) (a : EncryptionAlgorithm) (aad : Option (List ℕ))
      (p : EncryptedPacket) (fallback : Bool)
      → length drawn ≡ 12
      → (a ≡ cha_cha20_poly1305) ⊎ (aad ≡ none)
      → encrypt_flexible chacha gcm message key a aad drawn ≡ ok p
      → decrypt_flexible chacha gcm p.payload p.nonce key p.algorithm aad fallback ≡ ok message
  unfolding decrypt_flexible
  decrypt_flexible-encrypt_flexible message key drawn a aad p fallback l plain h =
      let (named, decrypted) = decrypt_with-sealed message key drawn a aad p l plain h in
      ground (arith, named, decrypted)

  -- One attempt accepts just what the same algorithm encrypts under the same nonce.
  decrypt_with-ok :
      (a : EncryptionAlgorithm) (c nonce key message : List ℕ)
      → decrypt_with chacha gcm a c nonce key none ≡ ok message
      → encrypt_flexible chacha gcm message key a none nonce
        ≡ ok (record { payload = c; nonce = nonce; algorithm = a })
  unfolding decrypt_with encrypt_flexible sealed
  decrypt_with-ok cha_cha20_poly1305 c nonce key message h =
      rw (encrypt_chacha20-back chacha gcm c key nonce message h)
  decrypt_with-ok aes256_gcm c nonce key message h =
      rw (encrypt_aes_gcm-back chacha gcm c key nonce message h)

  -- What is decrypted without additional data was encrypted so, under the algorithm that was asked for,
  -- or, where the fallback is on, under the other one.
  pub decrypt_flexible_sound :
      (c nonce key message : List ℕ) (a : EncryptionAlgorithm) (fallback : Bool)
      → decrypt_flexible chacha gcm c nonce key a none fallback ≡ ok message
      → (b : EncryptionAlgorithm) × ((b ≡ a) ⊎ ((fallback ≡ true) × (b ≡ other a)))
        × (encrypt_flexible chacha gcm message key b none nonce
            ≡ ok (record { payload = c; nonce = nonce; algorithm = b }))
  unfolding decrypt_flexible
  decrypt_flexible_sound c nonce key message a fallback h =
      elim (Result-cases (decrypt_with chacha gcm a c nonce key none)) [
        | inl (m, first) ↦ (a, inl refl, decrypt_with-ok a c nonce key message (ground arith))
        | inr (e, first) ↦ (
          other a,
          inr (ground arith, refl),
          decrypt_with-ok (other a) c nonce key message (ground arith),
        )
      ]

  -- The same of the functions for packets, whose algorithm may be left to the default.
  pub decrypt_packet-encrypt_packet :
      (packet key drawn : List ℕ) (a : Option EncryptionAlgorithm) (p : EncryptedPacket)
      (fallback : Bool)
      → length drawn ≡ 12
      → encrypt_packet chacha gcm packet key a drawn ≡ ok p
      → decrypt_packet chacha gcm p.payload key p.nonce p.algorithm fallback ≡ ok packet
  unfolding encrypt_packet decrypt_packet
  decrypt_packet-encrypt_packet packet key drawn a p fallback l h =
      decrypt_flexible-encrypt_flexible packet key drawn (unwrap_or_default a) none p fallback l
        (inr refl) h

  -- A session key reaches the peer: what `encrypt_session_key_flexible` seals with the shared secret
  -- `decrypt_session_key_flexible` opens with it.
  pub decrypt_session_key-encrypt_session_key :
      (session_key shared_secret drawn : List ℕ) (a : EncryptionAlgorithm) (p : EncryptedPacket)
      → length drawn ≡ 12
      → encrypt_session_key_flexible chacha gcm session_key shared_secret a drawn ≡ ok p
      → decrypt_session_key_flexible chacha gcm p shared_secret ≡ ok session_key
  unfolding encrypt_session_key_flexible decrypt_session_key_flexible
  decrypt_session_key-encrypt_session_key session_key shared_secret drawn a p l h =
      decrypt_flexible-encrypt_flexible session_key shared_secret drawn a none p false l (inr refl)
        h
