-- ===== src/Remote/Management/Upload.antt =====
-- What an upload of the management commands writes.
use aero_nyx_private_ed.Base.{
  ℕ, ◌≤◌, ◌≡◌, true, List, [], ◌∷◌, none, some, Text, length, ok, err, arith,
}
use aero_nyx_private_ed.Remote.Path.{join_path, file_name, parent_path}
use aero_nyx_private_ed.Remote.Command.Files.{Base64}
use aero_nyx_private_ed.Remote.Command.Permits.{BelowSome, any-starts_with_iff}
use aero_nyx_private_ed.Remote.Management.{SecurityPolicy}
use aero_nyx_private_ed.Remote.Management.Actions.{
  access_denied, System, write_file, is_path_allowed, read_file, upload_target, upload_content,
  upload_checked, write_checked, permissions, upload_file,
}
use aero_nyx_private_ed.Remote.Management.Permitted.{is_path_allowed-Allowed}

module _ (b : Base64) (policy : SecurityPolicy) (s : System) where
  upload_target_lem :
      (path parent dir name : Text)
      → parent_path path ≡ some parent
      → file_name path ≡ some name
      → is_path_allowed policy s parent ≡ ok dir
      → upload_target policy s path ≡ ok (some (join_path dir name))
  unfolding upload_target
  upload_target_lem path parent dir name at_parent named valid =
      let known = (is_path_allowed-Allowed policy s parent dir valid).0 in
      rw (at_parent, named, valid) (rw known)

  upload_content_lem :
      (p : Text) (bytes : List ℕ)
      → length bytes ≤ policy.max_file_size
      → upload_content b policy s p (b.encode bytes) true ≡ ok bytes
  unfolding upload_content
  upload_content_lem p bytes fits = ground (arith, b.decode-encode bytes)

  read_refused :
      (p : Text)
      → s.canonicalize p ≡ some p
      → BelowSome p policy.forbidden_paths
      → read_file policy s p none none ≡ err access_denied
  unfolding read_file is_path_allowed
  read_refused p known forbidden =
      rw (known, (any-starts_with_iff p policy.forbidden_paths).1 forbidden)

  -- An upload tests the directory only. In a directory that passes, it replaces a file that the policy
  -- forbids, which the same policy does not let be read.
  pub upload_file_forbidden :
      (path parent dir name : Text) (bytes : List ℕ)
      → parent_path path ≡ some parent
      → file_name path ≡ some name
      → is_path_allowed policy s parent ≡ ok dir
      → s.canonicalize (join_path dir name) ≡ some (join_path dir name)
      → BelowSome (join_path dir name) policy.forbidden_paths
      → length bytes ≤ policy.max_file_size
      → s.write (join_path dir name) bytes ≡ true
      → (upload_file b policy s path (b.encode bytes) none true
          ≡ (some (ok (length bytes)), write_file (join_path dir name) bytes ∷ []))
        × (read_file policy s (join_path dir name) none none ≡ err access_denied)
  unfolding upload_file upload_checked write_checked permissions
  upload_file_forbidden path parent dir name bytes at_parent named valid known forbidden fits done =
      (
        rw (upload_target_lem path parent dir name at_parent named valid)
            (rw (upload_content_lem (join_path dir name) bytes fits) (rw done)),
        read_refused (join_path dir name) known forbidden,
      )
