-- ===== src/Crypto/Flexible/Tests.antt =====
-- A packet for AES-GCM.
use aero_nyx_private_ed.Base.{ℕ, ◌≡◌, ◌⊎◌, inr, refl, List, [], ◌∷◌, none, true, codes, ok}
use aero_nyx_private_ed.Crypto.Encryption.{encrypt_aes_gcm}
use aero_nyx_private_ed.Crypto.Flexible.{
  EncryptionAlgorithm, aes256_gcm, other, EncryptedPacket, encrypt_flexible, decrypt_flexible,
  sealed,
}
use aero_nyx_private_ed.Crypto.Flexible.Fallback.{
  decrypt_flexible-encrypt_flexible, decrypt_flexible_sound,
}
use aero_nyx_private_ed.Fixtures.{plain}

abbrev key : List ℕ
key = codes "0123456789abcdef0123456789abcdef"

abbrev drawn : List ℕ
drawn = codes "0123456789ab"

abbrev message : List ℕ
message = 7 ∷ 8 ∷ 9 ∷ []

abbrev packet : EncryptedPacket
packet = record { payload = message; nonce = drawn; algorithm = aes256_gcm }

packet-made : encrypt_flexible plain plain message key aes256_gcm none drawn ≡ ok packet
unfolding encrypt_flexible sealed encrypt_aes_gcm
packet-made = refl

decrypt_flexible-encrypt_flexible_example :
    decrypt_flexible plain plain message drawn key aes256_gcm none true ≡ ok message
decrypt_flexible-encrypt_flexible_example =
    decrypt_flexible-encrypt_flexible plain plain message key drawn aes256_gcm none packet true refl
      (inr refl) packet-made

decrypt_flexible_sound_example :
    (b : EncryptionAlgorithm) × ((b ≡ aes256_gcm) ⊎ ((true ≡ true) × (b ≡ other aes256_gcm)))
    × (encrypt_flexible plain plain message key b none drawn
        ≡ ok (record { payload = message; nonce = drawn; algorithm = b }))
decrypt_flexible_sound_example =
    decrypt_flexible_sound plain plain message drawn key message aes256_gcm true (
      decrypt_flexible-encrypt_flexible plain plain message key drawn aes256_gcm none packet true
        refl (inr refl) packet-made)
