-- ===== src/Base/Strings.antt =====
-- The searches of Rust's `str` over bytes: `starts_with`, `contains`, `join`.
use mathlib.Core.Path.{◌≡◌, refl, ap, ◌∙◌}
use mathlib.Core.Logic.{◌↔◌, ◌⊎◌, inl, inr}
use mathlib.Core.Bool.{Bool, true, false, ◌&&◌, ◌||◌}
use mathlib.Core.List.{List, [], ◌∷◌, ◌++◌}
use native.Mathlib.Omega.{arith}
use aero_nyx_private_ed.Base.Tests.{Bool-cases}
use aero_nyx_private_ed.Base.Lists.{any}
use aero_nyx_private_ed.Base.Eq.{Equality, ◌==◌, Text, nat_eq, list_beq, text_iff}

module _ {ℓ} {A : Type ℓ} ⦃e : Equality A⦄ where
  unfoldable pub is_prefix : List A → List A → Bool
  is_prefix [] ys = true
  is_prefix (x ∷ xs) [] = false
  is_prefix (x ∷ xs) (y ∷ ys) = x == y && is_prefix xs ys

  pub is_prefix_append : (xs ys : List A) → is_prefix xs (xs ++ ys) ≡ true
  unfolding is_prefix
  is_prefix_append [] ys = refl
  is_prefix_append (x ∷ xs) ys = ground (arith, is_prefix_append xs ys, (e.equal_iff x x).1 refl)

  -- What stands behind a prefix.
  pub is_prefix-rest : (xs ys : List A) → is_prefix xs ys ≡ true → (zs : List A) × (ys ≡ xs ++ zs)
  unfolding is_prefix
  is_prefix-rest [] ys h = (ys, refl)
  is_prefix-rest (x ∷ xs) [] h = cc
  is_prefix-rest (x ∷ xs) (y ∷ ys) h =
      let same : x ≡ y = ground (arith, e.equal_iff x y) in
      let (zs, q) = is_prefix-rest xs ys (ground arith) in (zs, cc)

-- `s.contains(part)`.
unfoldable pub contains_text : Text → Text → Bool
contains_text part [] = is_prefix part []
contains_text part (c ∷ s) = is_prefix part (c ∷ s) || contains_text part s

-- The part stands somewhere in the text.
abbrev pub Holds : Text → Text → Type 0
Holds part s = (before : Text) × (after : Text) × (s ≡ before ++ (part ++ after))

contains_text-Holds : (part s : Text) → contains_text part s ≡ true → Holds part s
unfolding contains_text
contains_text-Holds part [] h = let (zs, q) = is_prefix-rest part [] h in ([], zs, q)
contains_text-Holds part (c ∷ s) h = elim (Bool-cases (is_prefix part (c ∷ s))) [
  | inl here ↦ let (zs, q) = is_prefix-rest part (c ∷ s) here in ([], zs, q)
  | inr later ↦
      let (before, after, q) = contains_text-Holds part s (ground (arith, later)) in
      (c ∷ before, after, ap (◌∷◌ c) q)
]

contains_text_prefix : (part s : Text) → is_prefix part s ≡ true → contains_text part s ≡ true
unfolding contains_text
contains_text_prefix part [] h = h
contains_text_prefix part (c ∷ s) h = rw h

contains_text-append :
    (part before after : Text) → contains_text part (before ++ (part ++ after)) ≡ true
unfolding contains_text
contains_text-append part [] after =
    contains_text_prefix part (part ++ after) (is_prefix_append part after)
contains_text-append part (c ∷ before) after =
    ground (arith, contains_text-append part before after)

-- `contains` finds a part exactly where there is one.
pub contains_text_iff : (part s : Text) → (contains_text part s ≡ true) ↔ Holds part s
contains_text_iff part s = (
  contains_text-Holds part s,
  λ (before, after, q). ap (contains_text part) q ∙ contains_text-append part before after,
)

-- The text is one of the list, and none of the parts stands in the text.
abbrev pub OneOf : Text → List Text → Type 0
OneOf x [] = ⊥
OneOf x (y ∷ ys) = (y ≡ x) ⊎ OneOf x ys

abbrev pub HoldsNone : List Text → Text → Type 0
HoldsNone [] s = Unit
HoldsNone (part ∷ parts) s = ¬ Holds part s × HoldsNone parts s

pub any_beq-OneOf : (x : Text) (ys : List Text) → any (λ y. list_beq y x) ys ≡ true → OneOf x ys
any_beq-OneOf x [] h = cc h
any_beq-OneOf x (y ∷ ys) h = elim (Bool-cases (list_beq y x)) [
  | inl here ↦ inl ((text_iff y x).0 here)
  | inr later ↦ inr (any_beq-OneOf x ys (ground (arith, later, h)))
]

pub any_contains-HoldsNone :
    (parts : List Text) (s : Text)
    → any (λ part. contains_text part s) parts ≡ false
    → HoldsNone parts s
any_contains-HoldsNone [] s h = tt
any_contains-HoldsNone (part ∷ parts) s h = (
  λ held. ground (arith, h, (contains_text_iff part s).1 held),
  any_contains-HoldsNone parts s (ground (arith, h)),
)

-- `parts.join(sep)`.
unfoldable pub join : Text → List Text → Text
join sep [] = []
join sep (x ∷ []) = x
join sep (x ∷ y ∷ xs) = x ++ (sep ++ join sep (y ∷ xs))
