-- ===== src/Network/Ipv4.antt =====
-- `std::net::Ipv4Addr` as src/network/ip_pool.rs and src/server/routing.rs use it: an address is the
-- number of its 32 bits, printed in the dotted form and parsed from it.
use aero_nyx_private_ed.Base.{
  ℕ, zero, suc, ◌+◌, ◌-◌, ◌*◌, ◌/◌, ◌%◌, ◌^◌, ◌<◌, ◌≡◌, refl, ap, ◌∙◌, Bool, not, ◌&&◌, [], ◌∷◌,
  ◌++◌, Option, none, some, arith, Text, codes, ltb, leb, nat_beq, if◌then◌else◌, length,
}

-- `{}` of a `u8`.
unfoldable pub show_octet : ℕ → Text
show_octet b =
    if ltb b 10
    then (48 + b) ∷ []
    else if ltb b 100
    then (48 + b / 10) ∷ (48 + b % 10) ∷ []
    else (48 + b / 100) ∷ (48 + b / 10 % 10) ∷ (48 + b % 10) ∷ []

-- `{}.{}.{}.{}` of four `u8`.
unfoldable pub show_octets : ℕ → ℕ → ℕ → ℕ → Text
unfolding show_octet
show_octets a b c d =
    show_octet a ++ (b'.' ∷ (show_octet b ++ (b'.' ∷ (show_octet c ++ (b'.' ∷ show_octet d)))))

is_digit : ℕ → Bool
is_digit c = leb 48 c && leb c 57

-- At most `f` more digits.
read_digits : ℕ → ℕ → Text → ℕ × Text
unfolding is_digit
read_digits zero n s = (n, s)
read_digits (suc f) n [] = (n, [])
read_digits (suc f) n (c ∷ s) =
    if is_digit c then read_digits f (n * 10 + (c - 48)) s else (n, c ∷ s)

-- A `u8` of one to three digits, with no zero in front of another digit.
read_octet : Text → Option (ℕ × Text)
unfolding read_digits
read_octet [] = none
read_octet (c ∷ s) =
    let (n, rest) = read_digits 2 (c - 48) s in
    if is_digit c && not (nat_beq c 48 && not (nat_beq (length rest) (length s))) && leb n 255
    then some (n, rest)
    else none

show_read_octet :
    (b : ℕ) (rest : Text)
    → b < 256
    → read_octet (show_octet b ++ (b'.' ∷ rest)) ≡ some (b, b'.' ∷ rest)
unfolding show_octet read_octet
show_read_octet b rest h = ground arith

show_read_last : (b : ℕ) → b < 256 → read_octet (show_octet b) ≡ some (b, [])
unfolding show_octet read_octet
show_read_last b h = ground arith

read_dot : Text → Option Text
read_dot [] = none
read_dot (c ∷ s) = if nat_beq c b'.' then some s else none

bind_option {ℓ κ} : {A : Type ℓ} {B : Type κ} → Option A → (A → Option B) → Option B
bind_option none f = none
bind_option (some a) f = f a

read_dotted_octet : Text → Option (ℕ × Text)
unfolding bind_option
read_dotted_octet s = bind_option (read_octet s) λ p. bind_option (read_dot p.1) λ r. some (p.0, r)

show_read_dotted :
    (b : ℕ) (rest : Text)
    → b < 256
    → read_dotted_octet (show_octet b ++ (b'.' ∷ rest)) ≡ some (b, rest)
unfolding read_dotted_octet read_dot
show_read_dotted b rest h = rw (show_read_octet b rest h, bind_option)

read_last_octet : Text → Option ℕ
unfolding bind_option
read_last_octet s = bind_option (read_octet s) λ p. elim p.1 [ [] ↦ some p.0 | _ ∷ _ ↦ none ]

-- `Display` of the address with these 32 bits.
unfoldable pub dotted : ℕ → Text
unfolding show_octets
dotted x = show_octets (x / 16777216 % 256) (x / 65536 % 256) (x / 256 % 256) (x % 256)

-- `Ipv4Addr::from_str`.
pub parse_ipv4 : Text → Option ℕ
unfolding bind_option read_dotted_octet read_last_octet
parse_ipv4 s = bind_option (read_dotted_octet s) λ p. bind_option (read_dotted_octet p.1) λ q.
    bind_option (read_dotted_octet q.1) λ r.
      bind_option (read_last_octet r.1) λ d. some (p.0 * 16777216 + q.0 * 65536 + r.0 * 256 + d)

pub parse-show_octets :
    (a b c d : ℕ)
    → a < 256
    → b < 256
    → c < 256
    → d < 256
    → parse_ipv4 (show_octets a b c d) ≡ some (a * 16777216 + b * 65536 + c * 256 + d)
unfolding parse_ipv4 show_octets
parse-show_octets a b c d ha hb hc hd = ground (
  arith,
  show_read_dotted a (show_octet b ++ (b'.' ∷ (show_octet c ++ (b'.' ∷ show_octet d)))) ha,
  show_read_dotted b (show_octet c ++ (b'.' ∷ show_octet d)) hb,
  show_read_dotted c (show_octet d) hc,
  show_read_last d hd,
)

pub parse-dotted : (x : ℕ) → x < 2 ^ 32 → parse_ipv4 (dotted x) ≡ some x
unfolding dotted
parse-dotted x h =
    parse-show_octets (x / 16777216 % 256) (x / 65536 % 256) (x / 256 % 256) (x % 256) (omega arith)
      (omega arith) (omega arith) (omega arith)
    ∙ ap some (omega arith)

pub dotted_injective : (x y : ℕ) → x < 2 ^ 32 → y < 2 ^ 32 → dotted x ≡ dotted y → x ≡ y
dotted_injective x y hx hy e = cc (parse-dotted x hx, parse-dotted y hy, ap parse_ipv4 e)

dotted_home : dotted 3232235777 ≡ codes "192.168.1.1"
unfolding dotted show_octets
dotted_home = refl

parse_home : parse_ipv4 (codes "192.168.1.1") ≡ some 3232235777
unfolding parse_ipv4 read_octet read_dot
parse_home = refl

parse_zero_prefix : parse_ipv4 (codes "192.168.01.1") ≡ none
unfolding parse_ipv4 read_octet read_dot
parse_zero_prefix = refl
