-- ===== src/Crypto/Padding/Tests.antt =====
-- A packet of three bytes with two of padding.
use aero_nyx_private_ed.Base.{ℕ, ◌≡◌, List, [], ◌∷◌, ok, arith}
use aero_nyx_private_ed.Crypto.Padding.{add_padding, remove_padding, remove_padding-add_padding}

abbrev packet : List ℕ
packet = 7 ∷ 8 ∷ 9 ∷ []

abbrev padding : List ℕ
padding = 1 ∷ 2 ∷ []

remove_padding-add_padding_example : remove_padding (add_padding packet padding) ≡ ok packet
remove_padding-add_padding_example = remove_padding-add_padding packet padding (omega arith)
