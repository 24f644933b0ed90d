-- ===== src/Remote/Command/Tests.antt =====
-- Commands on a machine with two files.
use aero_nyx_private_ed.Base.{
  ◌≡◌, ◌↔◌, refl, true, false, [], ◌∷◌, none, some, Text, text_eq, nat_eq, ◌||◌, codes, list_beq,
  if◌then◌else◌, ok, is_prefix,
}
use aero_nyx_private_ed.Remote.Path.{is_absolute, components, starts_with}
use aero_nyx_private_ed.Remote.Command.{
  RemoteCommandData, default_config, Machine, finished, validate_path,
}
use aero_nyx_private_ed.Remote.Command.Files.{Base64}
use aero_nyx_private_ed.Remote.Command.Listing.{
  Entries, nil, cons, plain, file, list_directory, handle_list,
}
use aero_nyx_private_ed.Remote.Command.Dispatch.{handle_command}
use aero_nyx_private_ed.Remote.Command.Permits.{ResolvesTo, Reaches, Permits, validate_path_iff}
use aero_nyx_private_ed.Remote.Command.Confinement.{AllEffects, Confined, handle_command-Confined}
use aero_nyx_private_ed.Remote.Command.Levels.{Within, handle_list-Within}

-- An encoding that leaves the bytes alone.
abbrev plain_base64 : Base64
plain_base64 = record {
  encode = λ bytes. bytes;
  decode = λ s. some s;
  decode-encode = λ bytes. refl;
}

abbrev notes : Text
notes = codes "/home/a"

-- `/home/a` is a file of two bytes; `/home` holds it, a hidden file and a directory.
abbrev host : Machine
host = record {
  canonicalize = λ p. if list_beq p notes || list_beq p (codes "/home") then some p else none;
  exists = λ p. list_beq p notes || list_beq p (codes "/home");
  metadata = λ p.
      if list_beq p notes
      then some (record { is_file = true; is_dir = false; len = 2 })
      else some (record { is_file = false; is_dir = true; len = 0 });
  read = λ p. some (104 ∷ 105 ∷ []);
  create_dir_all = λ d. true;
  write = λ p bytes. true;
  read_dir = λ p. some (
      record {
        name = codes "a";
        metadata = some (record { is_file = true; is_dir = false; len = 2 });
      }
      ∷ record { name = codes ".b"; metadata = none }
      ∷ []);
  run = λ p.
      finished (record { size = 2; text = 104 ∷ 105 ∷ [] }) (record { size = 0; text = [] })
        (some 0);
}

abbrev blank : RemoteCommandData
blank = record {
  command_type = [];
  cmd = none;
  args = none;
  cwd = none;
  timeout = none;
  env = none;
  path = none;
  content = none;
  mode = none;
  overwrite = none;
  max_size = none;
  include_hidden = none;
  recursive = none;
  categories = none;
}

abbrev upload : RemoteCommandData
upload = record blank {
  command_type = codes "upload";
  path = some (codes "/tmp/new");
  content = some (104 ∷ 105 ∷ []);
}

handle_command-Confined_example :
    AllEffects
      (Confined default_config host upload)
      (handle_command (λ a b. a) plain_base64 (λ c. ok []) default_config host (codes "1") upload).1
handle_command-Confined_example =
    handle_command-Confined (λ a b. a) plain_base64 (λ c. ok []) default_config host (codes "1")
      upload

validate_path_iff_example :
    (validate_path default_config host notes ≡ ok notes)
    ↔ (ResolvesTo default_config host notes notes × Permits default_config notes)
validate_path_iff_example = validate_path_iff default_config host notes notes

abbrev list_home : RemoteCommandData
list_home = record blank { command_type = codes "list"; path = some (codes "/home") }

home_entries : Entries
home_entries = cons (plain (codes "a") file 2) nil

handle_list_home : handle_list default_config host list_home ≡ ok home_entries
unfolding handle_list home_entries validate_path is_absolute starts_with list_beq list_directory
    is_prefix components
handle_list_home = refl

handle_list-Within_example :
    ((p : Text) × Reaches default_config host (some (codes "/home")) p
      × (list_directory host false 6 false p ≡ ok home_entries))
    × Within false 6 home_entries
handle_list-Within_example =
    handle_list-Within default_config host list_home home_entries handle_list_home
