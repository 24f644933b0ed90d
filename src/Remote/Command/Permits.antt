-- ===== src/Remote/Command/Permits.antt =====
-- The paths that `validate_path` lets pass.
use aero_nyx_private_ed.Base.{
  ◌≡◌, ◌↔◌, ◌⊎◌, inl, inr, refl, sym, ap, Bool, true, false, List, [], ◌∷◌, ◌++◌, none, Option,
  some, Text, Option-cases, text_eq, text_iff, list_beq, any, if◌then◌else◌, Result, ok, err, arith,
  Bool-cases, is_prefix_append, is_prefix-rest,
}
use mathlib.Core.Path.{subst}
use aero_nyx_private_ed.Remote.Path.{
  slash, is_absolute, join_path, is_absolute-append, starts_with_below, components, starts_with,
}
use aero_nyx_private_ed.Remote.Command.{
  SecurityMode, full_access, restricted, RemoteCommandConfig, ErrorCode, permission_denied, Machine,
  critical_paths, value_or, resolved, validate_path, path_passes,
}

-- The path lies in the directory, or is it.
abbrev pub Below : Text → Text → Type 0
Below p base = (rest : List Text) × (components p ≡ components base ++ rest)

abbrev pub BelowSome : Text → List Text → Type 0
BelowSome p [] = ⊥
BelowSome p (base ∷ bases) = Below p base ⊎ BelowSome p bases

abbrev pub PermitsIn : SecurityMode → List Text → Text → Type 0
PermitsIn full_access allowed p = ¬ BelowSome p critical_paths
PermitsIn restricted allowed p = BelowSome p allowed

-- What the mode permits: in restricted mode the allowed directories, else all but the critical ones.
abbrev pub Permits : RemoteCommandConfig → Text → Type 0
Permits config p = PermitsIn config.security_mode config.allowed_paths p

starts_with_iff : (p base : Text) → (starts_with p base ≡ true) ↔ Below p base
unfolding starts_with
starts_with_iff p base = (
  is_prefix-rest (components base) (components p),
  λ (rest, q). rw q (is_prefix_append (components base) rest),
)

pub any-starts_with_iff :
    (p : Text) (bases : List Text) → (any (λ a. starts_with p a) bases ≡ true) ↔ BelowSome p bases
any-starts_with_iff p [] = (λ h. cc, λ h. absurd h)
any-starts_with_iff p (b ∷ bases) =
    let more = any-starts_with_iff p bases in
    (
      λ h. elim (Bool-cases (starts_with p b)) [
        | inl here ↦ inl ((starts_with_iff p b).0 here)
        | inr there ↦ inr (more.0 (ground (arith, there, h)))
      ],
      λ h. elim h [
        | inl here ↦ rw ((starts_with_iff p b).1 here)
        | inr there ↦ ground (arith, more.1 there)
      ],
    )

path_passes_iff :
    (mode : SecurityMode) (allowed : List Text) (p : Text)
    → (path_passes mode allowed p ≡ true) ↔ PermitsIn mode allowed p
unfolding path_passes
path_passes_iff restricted allowed p = any-starts_with_iff p allowed
path_passes_iff full_access allowed p =
    let critical = any-starts_with_iff p critical_paths in
    (
      λ h below. ground (arith, h, critical.1 below),
      λ free. elim (Bool-cases (any (λ c. starts_with p c) critical_paths)) [
        | inl inside ↦ absurd (free (critical.0 inside))
        | inr outside ↦ rw outside
      ],
    )

-- A value that is returned under a test.
returned_iff :
    (P : Text → Type 0) (b : Bool) (r p : Text)
    → ((b ≡ true) ↔ P r)
    → (◌≡◌ {A = Result ErrorCode Text} (if b then ok r else err permission_denied) (ok p))
      ↔ ((p ≡ r) × P p)
returned_iff P true r p pass =
    (λ h. let q : r ≡ p = cc in (sym q, subst P q (pass.0 refl)), λ (q, h). ap ok (sym q))
returned_iff P false r p pass = (λ h. cc, λ (q, h). absurd (ground (arith, pass.1 (subst P q h))))

-- The path that a request means: as it is, or in the working directory where it is relative.
abbrev pub Means : RemoteCommandConfig → Text → Text → Type 0
Means config path whole =
    ((is_absolute path ≡ true) × (whole ≡ path))
    ⊎ ((is_absolute path ≡ false) × (whole ≡ join_path config.working_dir path))

-- The canonical form of what a request means, or, where the system has none, what it means as it is
-- written.
abbrev pub ResolvesTo : RemoteCommandConfig → Machine → Text → Text → Type 0
ResolvesTo config m path p =
    (whole : Text) × Means config path whole
    × ((m.canonicalize whole ≡ some p) ⊎ ((m.canonicalize whole ≡ none) × (p ≡ whole)))

-- A path that a request asks for and the mode permits, as it is resolved.
abbrev pub Reaches : RemoteCommandConfig → Machine → Option Text → Text → Type 0
Reaches config m asked p =
    (path : Text) × (asked ≡ some path) × ResolvesTo config m path p × Permits config p

canonical_or : (m : Machine) (whole : Text) → Text
canonical_or m whole = value_or (m.canonicalize whole) whole

canonical_or_lem :
    (m : Machine) (whole : Text)
    → (m.canonicalize whole ≡ some (canonical_or m whole))
      ⊎ ((m.canonicalize whole ≡ none) × (canonical_or m whole ≡ whole))
unfolding canonical_or
canonical_or_lem m whole = elim (Option-cases (m.canonicalize whole)) [
  | inl unknown ↦ inr (unknown, rw unknown)
  | inr (p, known) ↦ inl (ground (arith, known))
]

pub resolved-ResolvesTo :
    (config : RemoteCommandConfig) (m : Machine) (path : Text)
    → ResolvesTo config m path (resolved config m path)
unfolding resolved canonical_or
resolved-ResolvesTo config m path = elim (Bool-cases (is_absolute path)) [
  | inl rooted ↦ (path, inl (rooted, refl), rw rooted (canonical_or_lem m path))
  | inr inside ↦
      let whole = join_path config.working_dir path in
      (whole, inr (inside, refl), rw inside (canonical_or_lem m whole))
]

ResolvesTo-resolved :
    (config : RemoteCommandConfig) (m : Machine) (path p : Text)
    → ResolvesTo config m path p
    → resolved config m path ≡ p
unfolding resolved
ResolvesTo-resolved config m path p (whole, means, known) = ground arith

-- A path is accepted exactly when the mode permits, by its components, what it resolves to, and that
-- is what is used: the canonical form of the path, taken in the working directory where it is
-- relative, or, where the system has none, that path as it is written, its `..` included.
pub validate_path_iff :
    (config : RemoteCommandConfig) (m : Machine) (path p : Text)
    → (validate_path config m path ≡ ok p) ↔ (ResolvesTo config m path p × Permits config p)
unfolding validate_path
validate_path_iff config m path p =
    let accepted =
      returned_iff (Permits config)
        (path_passes config.security_mode config.allowed_paths (resolved config m path))
        (resolved config m path) p
        (path_passes_iff config.security_mode config.allowed_paths (resolved config m path)) in
    (
      λ h.
          let (same, permitted) = accepted.0 h in
          (
            subst (ResolvesTo config m path) (sym same) (resolved-ResolvesTo config m path),
            permitted,
          ),
      λ (resolves, permitted).
          accepted.1 (sym (ResolvesTo-resolved config m path p resolves), permitted),
    )

any-allowed :
    (p d : Text) (allowed : List Text)
    → starts_with p d ≡ true
    → any (λ a. list_beq a d) allowed ≡ true
    → any (λ a. starts_with p a) allowed ≡ true
any-allowed p d [] h k = cc
any-allowed p d (a ∷ allowed) h k = ground (arith, any-allowed p d allowed h, text_iff a d)

-- A directory that is allowed lets every path pass that is written below it and that the system cannot
-- make canonical, as it is written: with `..` in it the path leaves the directory.
pub validate_path_unresolved :
    (config : RemoteCommandConfig) (m : Machine) (d x : Text)
    → config.security_mode ≡ restricted
    → is_absolute d ≡ true
    → any (λ a. list_beq a d) config.allowed_paths ≡ true
    → m.canonicalize (d ++ slash ∷ x) ≡ none
    → validate_path config m (d ++ slash ∷ x) ≡ ok (d ++ slash ∷ x)
unfolding validate_path
validate_path_unresolved config m d x mode rooted member unknown = ground (
  arith,
  mode,
  is_absolute-append d (slash ∷ x) rooted,
  unknown,
  any-allowed (d ++ slash ∷ x) d config.allowed_paths (starts_with_below d x rooted) member,
)
