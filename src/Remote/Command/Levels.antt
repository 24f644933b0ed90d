-- ===== src/Remote/Command/Levels.antt =====
-- What a listing of a directory holds.
use aero_nyx_private_ed.Base.{
  ℕ, zero, suc, ◌≡◌, ◌⊎◌, inl, inr, refl, Bool, true, false, not, ◌&&◌, List, [], ◌∷◌, Option, none,
  some, Text, Result, ok, err, arith, Bool-cases, Option-cases, reject_if, ok_or, >>=-eq-ok,
  >>-eq-ok, ok_injective, ok_or-some,
}
use mathlib.Core.Path.{subst}
use aero_nyx_private_ed.Remote.Path.{join_path}
use aero_nyx_private_ed.Remote.Command.{
  RemoteCommandConfig, RemoteCommandData, ErrorCode, invalid_command, file_not_found, invalid_path,
  Metadata, DirEntry, Machine, validate_path,
}
use aero_nyx_private_ed.Remote.Command.Permits.{Reaches, validate_path_iff}
use aero_nyx_private_ed.Remote.Command.Listing.{
  Entry, plain, folder, Entries, nil, cons, is_hidden, entry_of, entries_of, list_directory, flag,
  entry_for, with_entry, handle_list, is_directory,
}

-- The name may be shown.
abbrev pub MayShow : Bool → Text → Type 0
MayShow include_hidden name = (include_hidden ≡ true) ⊎ (is_hidden name ≡ false)

-- Entries nested at most so deep, all with names that may be shown.
abbrev mutual
  pub Within : Bool → ℕ → Entries → Type 0
  Within include_hidden k nil = Unit
  Within include_hidden k (cons e es) = WithinEntry include_hidden k e × Within include_hidden k es

  pub WithinEntry : Bool → ℕ → Entry → Type 0
  WithinEntry include_hidden zero e = ⊥
  WithinEntry include_hidden (suc k) (plain name t size) = MayShow include_hidden name
  WithinEntry include_hidden (suc k) (folder name size sub) =
      MayShow include_hidden name × Within include_hidden k sub

shows :
    (include_hidden : Bool) (name : Text)
    → (not include_hidden && is_hidden name) ≡ false
    → MayShow include_hidden name
shows true name h = inl refl
shows false name h = inr h

module _ (include_hidden : Bool) (k : ℕ) where
  entry_of-Within :
      (name : Text) (d : Metadata) (r : Result ErrorCode Entries)
      → MayShow include_hidden name
      → ((es : Entries) → r ≡ ok es → Within include_hidden k es)
      → WithinEntry include_hidden (suc k) (entry_of name d r)
  unfolding entry_of
  entry_of-Within name d (ok sub) s all = (s, all sub refl)
  entry_of-Within name d (err e) s all = s

  entry_for-Within :
      (sub : Text → Result ErrorCode Entries) (recursive : Bool) (path name : Text) (d : Metadata)
      → MayShow include_hidden name
      → ((p : Text) (es : Entries) → sub p ≡ ok es → Within include_hidden k es)
      → WithinEntry include_hidden (suc k) (entry_for sub recursive path name d)
  unfolding entry_for
  entry_for-Within sub recursive path name d s all = elim (Bool-cases (recursive && d.is_dir)) [
    | inl inside ↦
        rw inside (entry_of-Within name d (sub (join_path path name)) s (all (join_path path name)))
    | inr flat ↦ rw flat s
  ]

  with_entry-Within :
      (sub : Text → Result ErrorCode Entries) (recursive : Bool) (path name : Text)
      (o : Option Metadata) (rest : Entries)
      → MayShow include_hidden name
      → ((p : Text) (es : Entries) → sub p ≡ ok es → Within include_hidden k es)
      → Within include_hidden (suc k) rest
      → Within include_hidden (suc k) (with_entry sub recursive path name o rest)
  unfolding with_entry
  with_entry-Within sub recursive path name none rest s all w = w
  with_entry-Within sub recursive path name (some d) rest s all w =
      (entry_for-Within sub recursive path name d s all, w)

  entries_of-Within :
      (sub : Text → Result ErrorCode Entries) (recursive : Bool) (path : Text) (ds : List DirEntry)
      → ((p : Text) (es : Entries) → sub p ≡ ok es → Within include_hidden k es)
      → Within include_hidden (suc k) (entries_of sub include_hidden recursive path ds)
  unfolding entries_of
  entries_of-Within sub recursive path [] all = tt
  entries_of-Within sub recursive path (d ∷ ds) all =
      let rest = entries_of-Within sub recursive path ds all in
      elim (Bool-cases (not include_hidden && is_hidden d.name)) [
        | inl skipped ↦ rw (skipped, Within) rest
        | inr kept ↦
            rw (kept, Within)
              (with_entry-Within sub recursive path d.name d.metadata
                (entries_of sub include_hidden recursive path ds) (shows include_hidden d.name kept)
                all rest)
      ]

list_directory-Within :
    (m : Machine) (include_hidden : Bool) (levels : ℕ) (recursive : Bool) (path : Text)
    (es : Entries)
    → list_directory m include_hidden levels recursive path ≡ ok es
    → Within include_hidden levels es
unfolding list_directory
list_directory-Within m include_hidden zero recursive path es h =
    subst (Within include_hidden 0) (ok_injective h) tt
list_directory-Within m include_hidden (suc levels) recursive path es h =
    elim (Option-cases (m.read_dir path)) [
      | inl failed ↦ ground (arith, failed, h)
      | inr (ds, found) ↦
          subst (Within include_hidden (suc levels))
            (ok_injective {E = ErrorCode} (ground (arith, found, h)))
            (entries_of-Within include_hidden levels (list_directory m include_hidden levels true)
              recursive path ds
              (λ p sub e. list_directory-Within m include_hidden levels true p sub e))
    ]

-- A listing that is returned is of the directory that the path of the request resolves to, which the
-- mode permits by its components, goes at most six levels down, and shows a name that starts with a
-- dot, at any level, only when these are asked for.
pub handle_list-Within :
    (config : RemoteCommandConfig) (m : Machine) (c : RemoteCommandData) (es : Entries)
    → handle_list config m c ≡ ok es
    → ((p : Text) × Reaches config m c.path p
        × (list_directory m (flag c.include_hidden) 6 (flag c.recursive) p ≡ ok es))
      × Within (flag c.include_hidden) 6 es
unfolding handle_list
handle_list-Within config m c es h =
    let (path, asked, h1) = >>=-eq-ok (ok_or c.path invalid_command) _ h in
    let (p, valid, h2) = >>=-eq-ok (validate_path config m path) _ h1 in
    let (resolves, permitted) = (validate_path_iff config m path p).0 valid in
    let reached : Reaches config m c.path p =
      (path, ok_or-some c.path invalid_command asked, resolves, permitted) in
    let (_, h3) = >>-eq-ok (reject_if (not (m.exists p)) file_not_found) _ h2 in
    let (_, h4) = >>-eq-ok (reject_if (not (is_directory (m.metadata p))) invalid_path) _ h3 in
    ((p, reached, h4), list_directory-Within m (flag c.include_hidden) 6 (flag c.recursive) p es h4)
