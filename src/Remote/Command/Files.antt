-- ===== src/Remote/Command/Files.antt =====
-- src/remote_command_handler.rs: `handle_upload` and `handle_download`. The crate base64 is a
-- parameter. The type and the time of a downloaded file are left out.
use aero_nyx_private_ed.Base.{
  ℕ, ◌+◌, ◌*◌, ◌-◌, ◌^◌, ◌≡◌, Bool, false, not, ◌&&◌, List, [], ◌∷◌, Option, none, some, Text, leb,
  ltb, nat_beq, if◌then◌else◌, length, Result, ok, err, ◌>>=◌, ◌>>◌, reject_if, ok_or,
}
use aero_nyx_private_ed.Remote.Path.{parent}
use aero_nyx_private_ed.Remote.Command.{
  RemoteCommandConfig, RemoteCommandData, ErrorCode, invalid_command, system_error, file_too_large,
  file_exists, file_not_found, invalid_path, Machine, Effect, create_dir, write_file,
  set_permissions, validate_path,
}

-- The crate: decoding undoes encoding.
pub record Base64 : Type 0 where
  pub encode : List ℕ → Text
  pub decode : Text → Option (List ℕ)
  pub decode-encode : (bytes : List ℕ) → decode (encode bytes) ≡ some bytes

abbrev pub flag : Option Bool → Bool
flag none = false
flag (some b) = b

abbrev pub size_or : Option ℕ → ℕ → ℕ
size_or none d = d
size_or (some n) d = n

octal_digits : ℕ → Text → Option ℕ
octal_digits acc [] = some acc
octal_digits acc (c ∷ s) =
    let value = acc * 8 + (c - b'0') in
    if leb b'0' c && leb c b'7' && ltb value (2 ^ 32) then octal_digits value s else none

octal_number : Text → Option ℕ
unfolding octal_digits
octal_number [] = none
octal_number (c ∷ s) = octal_digits 0 (c ∷ s)

-- `u32::from_str_radix(_, 8)`.
unfoldable pub from_octal : Text → Option ℕ
unfolding octal_number
from_octal [] = none
from_octal (c ∷ s) = if nat_beq c b'+' then octal_number s else octal_number (c ∷ s)

-- The tests before anything is changed: the path to write, and its new content.
unfoldable pub upload_request :
    Base64 → RemoteCommandConfig → Machine → RemoteCommandData → Result ErrorCode (Text × List ℕ)
upload_request b config m c = do
  path ← ok_or c.path invalid_command
  content ← ok_or c.content invalid_command
  full_path ← validate_path config m path
  decoded ← ok_or (b.decode content) invalid_command
  reject_if (ltb config.max_file_size (length decoded)) file_too_large
  reject_if (m.exists full_path && not (flag c.overwrite)) file_exists
  ok (full_path, decoded)

pub record Uploaded : Type 0 where
  pub bytes_written : ℕ
  pub path : Text

unfoldable pub permissions : Text → Option Text → List Effect
permissions full_path none = []
permissions full_path (some mode) = elim (from_octal mode) [
  | none ↦ []
  | some n ↦ set_permissions full_path n ∷ []
]

unfoldable pub write_to :
    Machine → Text → List ℕ → Option Text → Result ErrorCode Uploaded × List Effect
unfolding permissions
write_to m full_path decoded mode =
    if m.write full_path decoded
    then (
      ok (record { bytes_written = length decoded; path = full_path }),
      write_file full_path decoded ∷ permissions full_path mode,
    )
    else (err system_error, write_file full_path decoded ∷ [])

unfoldable pub below :
    Machine
    → List Text
    → Result ErrorCode Uploaded × List Effect
    → Result ErrorCode Uploaded × List Effect
below m dir rest =
    if m.create_dir_all dir
    then (rest.0, create_dir dir ∷ rest.1)
    else (err system_error, create_dir dir ∷ [])

unfoldable pub upload_to :
    Machine → Text → List ℕ → Option Text → Result ErrorCode Uploaded × List Effect
unfolding below write_to
upload_to m full_path decoded mode = elim (parent full_path) [
  | none ↦ write_to m full_path decoded mode
  | some dir ↦ below m dir (write_to m full_path decoded mode)
]

-- The rest of an upload, once the tests are passed.
unfoldable pub upload_checked :
    Machine
    → Option Text
    → Result ErrorCode (Text × List ℕ)
    → Result ErrorCode Uploaded × List Effect
unfolding upload_to
upload_checked m mode (err e) = (err e, [])
upload_checked m mode (ok (full_path, decoded)) = upload_to m full_path decoded mode

unfoldable pub handle_upload :
    Base64
    → RemoteCommandConfig
    → Machine
    → RemoteCommandData
    → Result ErrorCode Uploaded × List Effect
handle_upload b config m c = upload_checked m c.mode (upload_request b config m c)

pub record Downloaded : Type 0 where
  pub content : Text
  pub size : ℕ

unfoldable pub handle_download :
    Base64 → RemoteCommandConfig → Machine → RemoteCommandData → Result ErrorCode Downloaded
handle_download b config m c = do
  path ← ok_or c.path invalid_command
  full_path ← validate_path config m path
  reject_if (not (m.exists full_path)) file_not_found
  metadata ← ok_or (m.metadata full_path) system_error
  reject_if (not metadata.is_file) invalid_path
  reject_if (ltb (size_or c.max_size config.max_file_size) metadata.len) file_too_large
  content ← ok_or (m.read full_path) system_error
  ok (record { content = b.encode content; size = length content })
