-- ===== src/Crypto/Padding.antt =====
-- src/crypto/encryption.rs: `add_padding` and `remove_padding`. The random bytes are an argument of
-- `add_padding`; the length that the source draws is the length of that list.
mod Tests
use aero_nyx_private_ed.Base.{
  ℕ, ◌+◌, ◌-◌, ◌*◌, ◌/◌, ◌%◌, ◌≤◌, ◌<◌, ◌≡◌, refl, ap, ◌∙◌, ◌↔◌, List, [], ◌∷◌, ◌++◌, ltb,
  if◌then◌else◌, length, slice, take, drop, length-append, take-append, drop-append, take-drop,
  length-take-le, length-take-drop, Result, ok, err, arith,
}

pub data PaddingError : Type 0 where
  too_short : PaddingError
  invalid_padding : ℕ → ℕ → PaddingError

-- `(n as u16).to_be_bytes()`, put in front of the packet.
pub add_padding : List ℕ → List ℕ → List ℕ
add_padding packet padding =
    let padding_len = length padding % 65536 in
    padding_len / 256 ∷ padding_len % 256 ∷ packet ++ padding

unfoldable pub remove_padding : List ℕ → Result PaddingError (List ℕ)
remove_padding [] = err too_short
remove_padding (_ ∷ []) = err too_short
remove_padding (high ∷ low ∷ rest) =
    let padding_len = high * 256 + low in
    let packet_len = 2 + length rest in
    if ltb packet_len (2 + padding_len)
    then err (invalid_padding padding_len packet_len)
    else ok (slice (high ∷ low ∷ rest) 2 (2 + (packet_len - 2 - padding_len)))

-- What padding put around a packet, removing it takes away, as long as two bytes hold its length.
pub remove_padding-add_padding :
    (packet padding : List ℕ)
    → length padding < 65536
    → remove_padding (add_padding packet padding) ≡ ok packet
unfolding add_padding remove_padding
remove_padding-add_padding packet padding h =
    let len : length packet + length padding - length padding ≡ length packet = omega arith in
    ground (
      arith,
      length-append packet padding,
      take-append packet padding,
      len,
      ap (λ n. take n (packet ++ padding)) len,
    )

-- The packets that `remove_padding` accepts are the padded ones: what it returns, with the rest of
-- the packet as padding, gives the packet again.
pub remove_padding-ok :
    (high low : ℕ) (rest packet : List ℕ)
    → high < 256
    → low < 256
    → remove_padding (high ∷ low ∷ rest) ≡ ok packet
    → (padding : List ℕ) × (add_padding packet padding ≡ high ∷ low ∷ rest)
unfolding add_padding remove_padding
remove_padding-ok high low rest packet h l e =
    let n = high * 256 + low in
    let kept = length rest - n in
    let fits : n ≤ length rest = ground arith in
    (
      drop kept rest,
      ground (arith, take-drop kept rest, length-take-drop kept rest, length-take-le kept rest),
    )

-- A packet that is shorter than its first two bytes ask for is refused.
pub remove_padding_long :
    (high low : ℕ) (rest : List ℕ)
    → length rest < high * 256 + low
    → remove_padding (high ∷ low ∷ rest)
      ≡ err (invalid_padding (high * 256 + low) (2 + length rest))
unfolding remove_padding
remove_padding_long high low rest h = ground arith
