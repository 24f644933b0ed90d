-- ===== src/Utils/Validator.antt =====
-- src/utils/security.rs: `StringValidator`, over the bytes of a `String`. A byte of a character
-- outside ASCII is at least 128, so a test of the characters for ASCII ranges is one of the bytes.
use aero_nyx_private_ed.Base.{
  ℕ, ◌≡◌, refl, ap, ◌∙◌, Bool, false, not, ◌&&◌, ◌||◌, [], ◌∷◌, ◌++◌, Text, codes, ltb, leb,
  nat_beq, if◌then◌else◌, length, all, any, arith,
}

is_base58 : ℕ → Bool
is_base58 c =
    (leb b'a' c && leb c b'z')
    || (leb b'A' c && leb c b'Z' && not (nat_beq c b'I') && not (nat_beq c b'O'))
    || (leb b'1' c && leb c b'9')

unfoldable pub is_valid_solana_pubkey : Text → Bool
unfolding is_base58
is_valid_solana_pubkey key =
    if ltb (length key) 32 || ltb 44 (length key) then false else all is_base58 key

-- `replace` of one character by a text.
replace : ℕ → Text → Text → Text
replace c by [] = []
replace c by (x ∷ xs) = let rest = replace c by xs in if nat_beq x c then by ++ rest else x ∷ rest

unfoldable pub sanitize_log : Text → Text
unfolding replace
sanitize_log input =
    replace 9 (codes "\\t") (replace 13 (codes "\\r") (replace 10 (codes "\\n") input))

abbrev pub has : ℕ → Text → Bool
has c = any (λ x. nat_beq x c)

has-append : (c : ℕ) (xs ys : Text) → has c (xs ++ ys) ≡ (has c xs || has c ys)
has-append c [] ys = refl
has-append c (x ∷ xs) ys = ground (arith, has-append c xs ys)

-- What is replaced is gone, if the replacement does not bring it back.
has-replace_self : (c : ℕ) (by xs : Text) → has c by ≡ false → has c (replace c by xs) ≡ false
unfolding replace
has-replace_self c by [] h = refl
has-replace_self c by (x ∷ xs) h =
    ground (arith, has-replace_self c by xs h, has-append c by (replace c by xs))

-- No other character appears that the replacement does not hold.
has-replace_other :
    (c d : ℕ) (by xs : Text) → has d by ≡ false → has d xs ≡ false → has d (replace c by xs) ≡ false
unfolding replace
has-replace_other c d by [] h k = refl
has-replace_other c d by (x ∷ xs) h k =
    ground (arith, has-replace_other c d by xs h, has-append d by (replace c by xs))

replace_absent : (c : ℕ) (by xs : Text) → has c xs ≡ false → replace c by xs ≡ xs
unfolding replace
replace_absent c by [] h = refl
replace_absent c by (x ∷ xs) h = ground (arith, replace_absent c by xs)

module _ (input : Text) where
  no_feed : Text
  no_feed = replace 10 (codes "\\n") input

  no_return : Text
  unfolding no_feed
  no_return = replace 13 (codes "\\r") no_feed

  feed_gone : has 10 no_return ≡ false
  unfolding no_return no_feed
  feed_gone =
      has-replace_other 13 10 (codes "\\r") no_feed refl
        (has-replace_self 10 (codes "\\n") input refl)

  return_gone : has 13 no_return ≡ false
  unfolding no_return
  return_gone = has-replace_self 13 (codes "\\r") no_feed refl

  -- A sanitized message holds no line feed, no carriage return and no tab, and sanitizing it again
  -- changes nothing.
  pub sanitize_log-clean :
      (has 10 (sanitize_log input) ≡ false)
      × (has 13 (sanitize_log input) ≡ false)
      × (has 9 (sanitize_log input) ≡ false)
      × (sanitize_log (sanitize_log input) ≡ sanitize_log input)
  unfolding sanitize_log no_return no_feed
  sanitize_log-clean =
      let out = replace 9 (codes "\\t") no_return in
      let n : has 10 out ≡ false = has-replace_other 9 10 (codes "\\t") no_return refl feed_gone in
      let r : has 13 out ≡ false =
        has-replace_other 9 13 (codes "\\t") no_return refl return_gone in
      let t : has 9 out ≡ false = has-replace_self 9 (codes "\\t") no_return refl in
      let again : replace 13 (codes "\\r") (replace 10 (codes "\\n") out) ≡ out =
        ap (replace 13 (codes "\\r")) (replace_absent 10 (codes "\\n") out n)
        ∙ replace_absent 13 (codes "\\r") out r in
      (n, r, t, ap (replace 9 (codes "\\t")) again ∙ replace_absent 9 (codes "\\t") out t)
