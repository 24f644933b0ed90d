-- ===== src/Crypto/Flexible.antt =====
-- src/crypto/flexible_encryption.rs, with the session-key functions of src/crypto/encryption.rs that
-- call it. An error's text is kept as the error that it prints; `drawn` is the random nonce.
pub mod Fallback
mod Tests
use aero_nyx_private_ed.Base.{
  ℕ, ◌+◌, List, [], ◌∷◌, Option, none, some, Bool, true, false, not, Text, codes, text_eq, ◌==◌,
  leb, if◌then◌else◌, Result, ok, err, map_err, ◌>>=◌, ◌&&◌, ◌||◌, map,
}
use aero_nyx_private_ed.Crypto.Encryption.{
  EncryptionError, Aead, encrypt_chacha20, decrypt_chacha20, encrypt_aes_gcm, decrypt_aes_gcm,
}

pub data EncryptionAlgorithm : Type 0 where
  cha_cha20_poly1305 aes256_gcm : EncryptionAlgorithm

-- `to_lowercase`, as far as the names below can tell: no character outside ASCII is lowered to one of
-- their letters.
to_lowercase : Text → Text
to_lowercase = map (λ c. if leb b'A' c && leb c b'Z' then c + 32 else c)

unfoldable pub from_str : Text → Option EncryptionAlgorithm
unfolding to_lowercase
from_str s =
    let name = to_lowercase s in
    if name == codes "chacha20poly1305" || name == codes "chacha"
    then some cha_cha20_poly1305
    else if name == codes "aes256gcm" || name == codes "aes" || name == codes "aesgcm"
    then some aes256_gcm
    else none

unfoldable pub as_str : EncryptionAlgorithm → Text
as_str cha_cha20_poly1305 = codes "chacha20poly1305"
as_str aes256_gcm = codes "aes256gcm"

abbrev pub default_algorithm : EncryptionAlgorithm
default_algorithm = cha_cha20_poly1305

abbrev pub unwrap_or_default : Option EncryptionAlgorithm → EncryptionAlgorithm
unwrap_or_default none = default_algorithm
unwrap_or_default (some a) = a

pub data FlexibleEncryptionError : Type 0 where
  encryption_failed decryption_failed both_algorithms_failed :
      EncryptionError → FlexibleEncryptionError

pub record EncryptedPacket : Type 0 where
  pub payload : List ℕ
  pub nonce : List ℕ
  pub algorithm : EncryptionAlgorithm

abbrev pub other : EncryptionAlgorithm → EncryptionAlgorithm
other cha_cha20_poly1305 = aes256_gcm
other aes256_gcm = cha_cha20_poly1305

module _ (chacha gcm : Aead) where
  sealed :
      EncryptionAlgorithm
      → Result EncryptionError (List ℕ × List ℕ)
      → Result FlexibleEncryptionError EncryptedPacket
  sealed a (err e) = err (encryption_failed e)
  sealed a (ok (c, nonce)) = ok (record { payload = c; nonce = nonce; algorithm = a })

  unfoldable pub encrypt_flexible :
      List ℕ
      → List ℕ
      → EncryptionAlgorithm
      → Option (List ℕ)
      → List ℕ
      → Result FlexibleEncryptionError EncryptedPacket
  unfolding sealed
  encrypt_flexible message key cha_cha20_poly1305 aad drawn =
      sealed cha_cha20_poly1305 (encrypt_chacha20 chacha gcm message key none drawn)
  encrypt_flexible message key aes256_gcm aad drawn =
      sealed aes256_gcm (encrypt_aes_gcm chacha gcm message key aad drawn)

  -- One attempt with one algorithm.
  decrypt_with :
      EncryptionAlgorithm
      → List ℕ
      → List ℕ
      → List ℕ
      → Option (List ℕ)
      → Result EncryptionError (List ℕ)
  decrypt_with cha_cha20_poly1305 encrypted nonce key aad =
      decrypt_chacha20 chacha gcm encrypted key nonce
  decrypt_with aes256_gcm encrypted nonce key aad =
      decrypt_aes_gcm chacha gcm encrypted key nonce aad

  pub decrypt_flexible :
      List ℕ
      → List ℕ
      → List ℕ
      → EncryptionAlgorithm
      → Option (List ℕ)
      → Bool
      → Result FlexibleEncryptionError (List ℕ)
  unfolding decrypt_with
  decrypt_flexible encrypted nonce key algorithm aad fallback =
      elim (decrypt_with algorithm encrypted nonce key aad) [
        | ok message ↦ ok message
        | err e ↦
            if not fallback
            then err (decryption_failed e)
            else map_err both_algorithms_failed
                (decrypt_with (other algorithm) encrypted nonce key aad)
      ]

  unfoldable pub encrypt_packet :
      List ℕ
      → List ℕ
      → Option EncryptionAlgorithm
      → List ℕ
      → Result FlexibleEncryptionError EncryptedPacket
  encrypt_packet packet session_key algorithm drawn =
      encrypt_flexible packet session_key (unwrap_or_default algorithm) none drawn

  pub decrypt_packet :
      List ℕ
      → List ℕ
      → List ℕ
      → EncryptionAlgorithm
      → Bool
      → Result FlexibleEncryptionError (List ℕ)
  decrypt_packet encrypted session_key nonce algorithm enable_fallback =
      decrypt_flexible encrypted nonce session_key algorithm none enable_fallback

  pub encrypt_session_key_flexible :
      List ℕ
      → List ℕ
      → EncryptionAlgorithm
      → List ℕ
      → Result FlexibleEncryptionError EncryptedPacket
  encrypt_session_key_flexible session_key shared_secret preferred drawn =
      encrypt_flexible session_key shared_secret preferred none drawn

  pub decrypt_session_key_flexible :
      EncryptedPacket → List ℕ → Result FlexibleEncryptionError (List ℕ)
  decrypt_session_key_flexible p shared_secret =
      decrypt_flexible p.payload p.nonce shared_secret p.algorithm none false
