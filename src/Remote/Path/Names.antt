-- ===== src/Remote/Path/Names.antt =====
-- What `file_name` of `std::path` gives: a name that leads nowhere else.
use aero_nyx_private_ed.Base.{
  ℕ, ◌≡◌, ◌≢◌, ◌⊎◌, inl, inr, refl, List, [], ◌∷◌, some, Text, text_iff, list_beq, nat_beq, codes,
  arith, Bool-cases, Option-cases,
}
use mathlib.Core.Path.{subst}
use aero_nyx_private_ed.Remote.Path.{
  slash, is_absolute, add_to_first, segments, named, relative, components, last_of, file_name,
}

abbrev pub HasNoSlash : Text → Type 0
HasNoSlash [] = Unit
HasNoSlash (c ∷ s) = (c ≢ slash) × HasNoSlash s

-- The name of an entry of a directory, of neither the directory itself nor its parent.
abbrev pub IsName : Text → Type 0
IsName name = HasNoSlash name × (name ≢ []) × (name ≢ codes ".") × (name ≢ codes "..")

abbrev All : (Text → Type 0) → List Text → Type 0
All P [] = Unit
All P (s ∷ ss) = P s × All P ss

abbrev IsPiece : Text → Type 0
IsPiece s = HasNoSlash s × (s ≢ [])

abbrev IsComponent : Text → Type 0
IsComponent s = (s ≡ codes "/") ⊎ IsPiece s

add_to_first-HasNoSlash :
    (c : ℕ) (ss : List Text) → c ≢ slash → All HasNoSlash ss → All HasNoSlash (add_to_first c ss)
unfolding add_to_first
add_to_first-HasNoSlash c [] n h = ((n, tt), tt)
add_to_first-HasNoSlash c (s ∷ ss) n (h, hs) = ((n, h), hs)

segments-HasNoSlash : (p : Text) → All HasNoSlash (segments p)
unfolding segments
segments-HasNoSlash [] = (tt, tt)
segments-HasNoSlash (c ∷ p) = elim (Bool-cases (nat_beq c slash)) [
  | inl here ↦ rw here (tt, segments-HasNoSlash p)
  | inr inside ↦ rw inside (
      add_to_first-HasNoSlash c (segments p) (λ e. ground (arith, inside, e))
        (segments-HasNoSlash p))
]

named-IsComponent : (ss : List Text) → All HasNoSlash ss → All IsComponent (named ss)
unfolding named
named-IsComponent [] h = tt
named-IsComponent (s ∷ ss) (h, hs) = elim (Bool-cases (list_beq s [])) [
  | inl empty ↦ rw empty (named-IsComponent ss hs)
  | inr full ↦ elim (Bool-cases (list_beq s (codes "."))) [
    | inl dot ↦ rw (full, dot) (named-IsComponent ss hs)
    | inr piece ↦
        rw (full, piece)
          (inr (h, λ e. ground (arith, full, (text_iff s []).1 e)), named-IsComponent ss hs)
  ]
]

relative-IsComponent : (ss : List Text) → All HasNoSlash ss → All IsComponent (relative ss)
unfolding relative
relative-IsComponent [] h = tt
relative-IsComponent (s ∷ ss) (h, hs) = elim (Bool-cases (list_beq s (codes "."))) [
  | inl dot ↦
      let is_dot = (text_iff s (codes ".")).0 dot in
      rw dot (inr (h, λ e. cc (is_dot, e)), named-IsComponent ss hs)
  | inr other ↦ rw other (named-IsComponent (s ∷ ss) (h, hs))
]

components-IsComponent : (p : Text) → All IsComponent (components p)
unfolding components
components-IsComponent p = elim (Bool-cases (is_absolute p)) [
  | inl rooted ↦ rw rooted (inl refl, named-IsComponent (segments p) (segments-HasNoSlash p))
  | inr inside ↦ rw inside (relative-IsComponent (segments p) (segments-HasNoSlash p))
]

last_of-All : (P : Text → Type 0) (cs : List Text) (c : Text) → All P cs → last_of cs ≡ some c → P c
unfolding last_of
last_of-All P [] c h e = cc e
last_of-All P (d ∷ []) c (h, _) e = let same : d ≡ c = cc e in subst P same h
last_of-All P (d ∷ d' ∷ cs) c (h, hs) e = last_of-All P (d' ∷ cs) c hs e

pub file_name-IsName : (p name : Text) → file_name p ≡ some name → IsName name
unfolding file_name
file_name-IsName p name h = elim (Option-cases (last_of (components p))) [
  | inl empty ↦ absurd (ground (arith, empty))
  | inr (c, last) ↦
      let root = text_iff c (codes "/") in
      let dot = text_iff c (codes ".") in
      let up = text_iff c (codes "..") in
      let same : c ≡ name = ground (arith, last) in
      subst IsName same
        (elim (last_of-All IsComponent (components p) c (components-IsComponent p) last) [
          | inl e ↦ absurd (ground (arith, last, h, root.1 e))
          | inr (clean, full) ↦ (
            clean,
            full,
            λ e. ground (arith, last, h, dot.1 e),
            λ e. ground (arith, last, h, up.1 e),
          )
        ])
]
