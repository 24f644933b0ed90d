-- ===== src/Remote/Command/Listing.antt =====
-- src/remote_command_handler.rs: `list_directory` and `handle_list`. `levels` is 6 less the depth of
-- the source, which lists nothing below depth 5. Owners, permissions and times are left out.
use aero_nyx_private_ed.Base.{
  ℕ, zero, suc, Bool, true, false, not, ◌&&◌, List, [], ◌∷◌, Option, none, some, Text, codes,
  nat_eq, if◌then◌else◌, Result, ok, err, ◌>>=◌, ◌>>◌, reject_if, ok_or, is_prefix,
}
use aero_nyx_private_ed.Remote.Path.{join_path}
use aero_nyx_private_ed.Remote.Command.{
  RemoteCommandConfig, RemoteCommandData, ErrorCode, invalid_command, system_error, file_not_found,
  invalid_path, Metadata, DirEntry, Machine, validate_path,
}

pub data FileType : Type 0 where
  directory file other : FileType

-- An entry with its size, and a directory with its own entries, where they were read.
mutual
  pub data Entry : Type 0 where
    plain : Text → FileType → ℕ → Entry
    folder : Text → ℕ → Entries → Entry

  pub data Entries : Type 0 where
    nil : Entries
    cons : Entry → Entries → Entries

file_type : Metadata → FileType
file_type d = if d.is_dir then directory else if d.is_file then file else other

unfoldable pub is_hidden : Text → Bool
is_hidden name = is_prefix (codes ".") name

unfoldable pub entry_of : Text → Metadata → Result ErrorCode Entries → Entry
unfolding file_type
entry_of name d (ok sub) = folder name d.len sub
entry_of name d (err e) = plain name (file_type d) d.len

-- An entry that is shown; `sub` lists a directory in it.
unfoldable pub entry_for : (Text → Result ErrorCode Entries) → Bool → Text → Text → Metadata → Entry
unfolding entry_of file_type
entry_for sub recursive path name d =
    if recursive && d.is_dir
    then entry_of name d (sub (join_path path name))
    else plain name (file_type d) d.len

-- An entry without metadata is passed over.
unfoldable pub with_entry :
    (Text → Result ErrorCode Entries) → Bool → Text → Text → Option Metadata → Entries → Entries
unfolding entry_for
with_entry sub recursive path name none rest = rest
with_entry sub recursive path name (some d) rest = cons (entry_for sub recursive path name d) rest

-- The entries of one directory, in the order that the system gives.
unfoldable pub entries_of :
    (Text → Result ErrorCode Entries) → Bool → Bool → Text → List DirEntry → Entries
unfolding with_entry is_hidden
entries_of sub include_hidden recursive path [] = nil
entries_of sub include_hidden recursive path (e ∷ es) =
    let rest = entries_of sub include_hidden recursive path es in
    if not include_hidden && is_hidden e.name
    then rest
    else with_entry sub recursive path e.name e.metadata rest

unfoldable pub list_directory : Machine → Bool → ℕ → Bool → Text → Result ErrorCode Entries
unfolding entries_of
list_directory m include_hidden zero recursive path = ok nil
list_directory m include_hidden (suc levels) recursive path = elim (m.read_dir path) [
  | none ↦ err system_error
  | some es ↦
      ok (entries_of (list_directory m include_hidden levels true) include_hidden recursive path es)
]

abbrev pub flag : Option Bool → Bool
flag none = false
flag (some b) = b

unfoldable pub is_directory : Option Metadata → Bool
is_directory none = false
is_directory (some d) = d.is_dir

unfoldable pub handle_list :
    RemoteCommandConfig → Machine → RemoteCommandData → Result ErrorCode Entries
unfolding is_directory
handle_list config m c = do
  path ← ok_or c.path invalid_command
  full_path ← validate_path config m path
  reject_if (not (m.exists full_path)) file_not_found
  reject_if (not (is_directory (m.metadata full_path))) invalid_path
  list_directory m (flag c.include_hidden) 6 (flag c.recursive) full_path
