-- ===== src/Remote/Path.antt =====
-- `std::path` on Unix, as src/remote_command_handler.rs and src/remote_management.rs use it: a path is
-- its text, and two paths are compared by their components.
pub mod Names
use aero_nyx_private_ed.Base.{
  ℕ, ◌≡◌, refl, ap, ◌∙◌, Bool, true, false, ◌||◌, List, [], ◌∷◌, ◌++◌, Option, none, some, Text,
  text_eq, codes, list_beq, nat_beq, if◌then◌else◌, arith, is_prefix, is_prefix_append, Bool-cases,
  inl, inr,
}

abbrev pub slash : ℕ
slash = b'/'

unfoldable pub is_absolute : Text → Bool
is_absolute [] = false
is_absolute (c ∷ p) = nat_beq c slash

add_to_first : ℕ → List Text → List Text
add_to_first c [] = (c ∷ []) ∷ []
add_to_first c (s ∷ ss) = (c ∷ s) ∷ ss

-- The pieces between the slashes.
segments : Text → List Text
unfolding add_to_first
segments [] = [] ∷ []
segments (c ∷ p) =
    let rest = segments p in if nat_beq c slash then [] ∷ rest else add_to_first c rest

-- Empty pieces and `.` are no components.
named : List Text → List Text
named [] = []
named (s ∷ ss) =
    let rest = named ss in if list_beq s [] || list_beq s (codes ".") then rest else s ∷ rest

-- A leading `.` of a relative path is one.
relative : List Text → List Text
relative [] = []
relative (s ∷ ss) = if list_beq s (codes ".") then s ∷ named ss else named (s ∷ ss)

-- `components()`, each as its text: the root is `/`, the parent `..`.
unfoldable pub components : Text → List Text
unfolding segments named relative is_absolute
components p = if is_absolute p then codes "/" ∷ named (segments p) else relative (segments p)

-- `path.starts_with(base)`.
unfoldable pub starts_with : Text → Text → Bool
starts_with p base = is_prefix (components base) (components p)

ends_with_slash : Text → Bool
ends_with_slash [] = false
ends_with_slash (c ∷ []) = nat_beq c slash
ends_with_slash (c ∷ d ∷ p) = ends_with_slash (d ∷ p)

-- `base.join(path)`.
unfoldable pub join_path : Text → Text → Text
unfolding is_absolute ends_with_slash
join_path base p =
    if is_absolute p
    then p
    else if list_beq base [] || ends_with_slash base
    then base ++ p
    else base ++ slash ∷ p

all_but_last : List Text → List Text
all_but_last [] = []
all_but_last (c ∷ []) = []
all_but_last (c ∷ d ∷ cs) = c ∷ all_but_last (d ∷ cs)

-- A path that is empty or ends in the root has no parent.
parent_of : List Text → Option (List Text)
unfolding all_but_last
parent_of [] = none
parent_of (c ∷ []) = if list_beq c (codes "/") then none else some []
parent_of (c ∷ d ∷ cs) = some (all_but_last (c ∷ d ∷ cs))

-- `path.parent()`, by its components.
unfoldable pub parent : Text → Option (List Text)
unfolding parent_of
parent p = parent_of (components p)

segments-nonempty : (p : Text) → (s : Text) × (ss : List Text) × (segments p ≡ s ∷ ss)
unfolding segments
segments-nonempty [] = ([], [], refl)
segments-nonempty (c ∷ p) =
    let (s, ss, q) = segments-nonempty p in
    elim (Bool-cases (nat_beq c slash)) [
      | inl here ↦ ([], segments p, rw here)
      | inr inside ↦ (c ∷ s, ss, ground (arith, inside, q))
    ]

-- The pieces on both sides of a slash.
segments-append : (xs ys : Text) → segments (xs ++ slash ∷ ys) ≡ segments xs ++ segments ys
unfolding segments
segments-append [] ys = refl
segments-append (c ∷ xs) ys =
    let (s, ss, q) = segments-nonempty xs in ground (arith, q, segments-append xs ys)

named-append : (xs ys : List Text) → named (xs ++ ys) ≡ named xs ++ named ys
unfolding named
named-append [] ys = refl
named-append (x ∷ xs) ys = ground (arith, named-append xs ys)

pub is_absolute-append : (xs ys : Text) → is_absolute xs ≡ true → is_absolute (xs ++ ys) ≡ true
unfolding is_absolute
is_absolute-append [] ys h = cc
is_absolute-append (c ∷ xs) ys h = h

-- What stands behind a slash adds components, whatever it holds.
components-append :
    (d x : Text)
    → is_absolute d ≡ true
    → components (d ++ slash ∷ x) ≡ components d ++ named (segments x)
unfolding components
components-append d x h =
    rw (h, is_absolute-append d (slash ∷ x) h)
      (ap (◌∷◌ (codes "/"))
        (ap named (segments-append d x) ∙ named-append (segments d) (segments x)))

pub starts_with_below : (d x : Text) → is_absolute d ≡ true → starts_with (d ++ slash ∷ x) d ≡ true
unfolding starts_with
starts_with_below d x h =
    rw (components-append d x h) (is_prefix_append (components d) (named (segments x)))

last_of : List Text → Option Text
last_of [] = none
last_of (c ∷ []) = some c
last_of (c ∷ d ∷ cs) = last_of (d ∷ cs)

-- `path.file_name()`: the last component, where it is a name.
unfoldable pub file_name : Text → Option Text
unfolding last_of
file_name p = elim (last_of (components p)) [
  | none ↦ none
  | some c ↦
      if list_beq c (codes "/") || list_beq c (codes ".") || list_beq c (codes "..")
      then none
      else some c
]

with_slashes : List Text → Text
with_slashes [] = []
with_slashes (c ∷ []) = c
with_slashes (c ∷ d ∷ cs) = c ++ slash ∷ with_slashes (d ∷ cs)

-- A path from its components, the root first if it is absolute.
unfoldable pub path_of : List Text → Text
unfolding with_slashes
path_of [] = []
path_of (c ∷ cs) = if list_beq c (codes "/") then slash ∷ with_slashes cs else with_slashes (c ∷ cs)

-- `path.parent()` as a path.
unfoldable pub parent_path : Text → Option Text
unfolding path_of
parent_path p = elim (parent p) [ none ↦ none | some cs ↦ some (path_of cs) ]

-- The root is the first component of every absolute path.
pub components-absolute :
    (p : Text)
    → is_absolute p ≡ true
    → (rest : List Text) × (components p ≡ components (codes "/") ++ rest)
unfolding components named segments is_absolute list_beq
components-absolute p h = (named (segments p), rw h refl)
