-- ===== src/Fixtures.antt =====
-- Concrete instances of the parameters of the development, on which the tests evaluate it.
use mathlib.Core.Path.{sym}
use aero_nyx_private_ed.Base.{
  ℕ, zero, suc, ◌≡◌, refl, List, [], ◌∷◌, ◌++◌, Option, none, some, Text, text_eq, list_beq, length,
  take, drop, take-append, drop-append, length-append, arith,
}
use aero_nyx_private_ed.Auth.Solana.{Solana, Sockets}
use aero_nyx_private_ed.Crypto.Encryption.{Aead, CbcHmac}
use aero_nyx_private_ed.Protocol.Types.{PacketType, data_packet, ping}
use aero_nyx_private_ed.Protocol.Serialization.{SerdeJson}

-- A key signs a message by standing in front of it.
abbrev pub sol : Solana
sol = record {
  Pubkey = Text;
  Signature = Text;
  pubkey_from_str = some;
  signature_from_str = some;
  verify = λ key message sig. list_beq sig (key ++ message);
}

abbrev pub sock : Sockets
sock = record { SocketAddr = Text; addr_eq = text_eq; addr_from_str = some }

-- The cipher that hides nothing.
abbrev pub plain : Aead
plain = record {
  encrypt = λ key nonce message. some message;
  decrypt = λ key nonce c. some c;
  decrypt_encrypt = λ key nonce message c h. sym h;
  encrypt_decrypt = λ key nonce c message h. sym h;
}

abbrev zeros : List ℕ
zeros = 0 ∷ 0 ∷ 0 ∷ 0 ∷ 0 ∷ 0 ∷ 0 ∷ 0 ∷ 0 ∷ 0 ∷ 0 ∷ 0 ∷ 0 ∷ 0 ∷ 0 ∷ 0 ∷ []

-- A block of zeros in front of the message, and a tag of zeros.
abbrev pub cbc : CbcHmac
cbc = record {
  cbc_encrypt = λ key iv message. zeros ++ message;
  cbc_decrypt = λ key iv c. some (drop 16 c);
  hmac = λ key message. zeros ++ zeros;
  cbc_decrypt_encrypt = λ key iv message. refl;
  length-cbc_encrypt = λ key iv message. omega (arith, length-append zeros message);
  length-hmac = λ key message. refl;
}

-- Pings and data packets, as lists of numbers.
unfoldable pub write_packet : PacketType → Option Text
write_packet (ping timestamp sequence) = some (0 ∷ timestamp ∷ sequence ∷ [])
write_packet (data_packet encrypted nonce counter none none) =
    some (1 ∷ counter ∷ length encrypted ∷ encrypted ++ nonce)
write_packet _ = none

unfoldable pub read_packet : Text → Option PacketType
read_packet (zero ∷ timestamp ∷ sequence ∷ []) = some (ping timestamp sequence)
read_packet (suc tag ∷ counter ∷ n ∷ rest) =
    some (data_packet (take n rest) (drop n rest) counter none none)
read_packet _ = none

pub read-write_packet :
    (p : PacketType) (s : Text) → write_packet p ≡ some s → read_packet s ≡ some p
unfolding write_packet read_packet
read-write_packet (ping timestamp sequence) s h =
    let read : s ≡ 0 ∷ timestamp ∷ sequence ∷ [] = ground arith in ground (arith, read)
read-write_packet (data_packet encrypted nonce counter none none) s h =
    let read : s ≡ 1 ∷ counter ∷ length encrypted ∷ encrypted ++ nonce = ground arith in
    ground (arith, read, take-append encrypted nonce, drop-append encrypted nonce)
read-write_packet _ s h = cc

abbrev pub json : SerdeJson
json = record {
  to_string = write_packet;
  from_str = read_packet;
  from_str_to_string = read-write_packet;
}
