-- ===== src/Base/Eq.antt =====
-- Decidable equality as an interface, and Rust's `String` as the list of its UTF-8 bytes.
use Prim.Native.Nat.{ℕ}
use Prim.Native.Char.{code}
use Prim.Native.String.{String}
use mathlib.Core.Path.{◌≡◌, refl}
use mathlib.Core.Logic.{◌↔◌}
use mathlib.Core.Bool.{Bool, true, false, ◌&&◌}
use mathlib.Core.List.{List, [], ◌∷◌}
use native.Mathlib.Omega.{arith}
use aero_nyx_private_ed.Base.Tests.{nat_beq, nat_beq_iff}

-- A test that decides equality.
pub record Equality {ℓ} (A : Type ℓ) : Type ℓ where
  pub equal : A → A → Bool
  pub equal_iff : (x y : A) → (equal x y ≡ true) ↔ (x ≡ y)

infix 50 ◌==◌
abbrev pub ◌==◌ {ℓ} : {K : Type ℓ} ⦃q : Equality K⦄ → K → K → Bool
◌==◌ ⦃q⦄ = q.equal

instance abbrev pub nat_eq : Equality ℕ
nat_eq = record { equal = nat_beq; equal_iff = nat_beq_iff }

-- The bytes of a `String`.
abbrev pub Text : Type 0
Text = List ℕ

-- The bytes of an ASCII literal.
abbrev pub codes : String → Text
codes String.[] = []
codes (String.◌∷◌ c s) = code c ∷ codes s

unfoldable pub list_beq : Text → Text → Bool
list_beq [] [] = true
list_beq (x ∷ xs) (y ∷ ys) = nat_beq x y && list_beq xs ys
list_beq _ _ = false

pub text_iff : (s t : Text) → (list_beq s t ≡ true) ↔ (s ≡ t)
unfolding list_beq
text_iff [] [] = ground arith
text_iff [] (y ∷ ys) = ground arith
text_iff (x ∷ xs) [] = ground arith
text_iff (x ∷ xs) (y ∷ ys) = ground (arith, text_iff xs ys)

pub text_self : (s : Text) → list_beq s s ≡ true
text_self s = (text_iff s s).1 refl

instance abbrev pub text_eq : Equality Text
text_eq = record { equal = list_beq; equal_iff = text_iff }
