-- ===== src/Config/Settings/Tests.antt =====
-- The settings of a node that offers a VPN without TLS.
use aero_nyx_private_ed.Base.{
  ◌≡◌, refl, true, false, none, some, text_eq, codes, ok, list_beq, contains_text, is_prefix,
}
use aero_nyx_private_ed.Config.Settings.{
  hybrid, raw, ServerArgs, ServerConfig, Disk, has_vpn, is_tls, needs_files, check_vpn,
  is_security_mode, validate, validated,
}
use aero_nyx_private_ed.Config.Settings.Args.{
  data_dir_of, registration_of, listen_of, files_of, from_line, chosen, from_args,
}
use aero_nyx_private_ed.Config.Settings.Valid.{IsValid, Decided, from_args-IsValid}

-- No file is there, and directories can be made.
abbrev empty_disk : Disk
empty_disk = record {
  exists = λ p. false;
  registration = λ p. none;
  config = λ p. none;
  create_dir_all = λ p. true;
  parse_addr = some;
  platform_data_dir = codes "/var/lib/aeronyx";
  default_data_dir = codes "data";
}

abbrev args : ServerArgs
args = record {
  mode = hybrid;
  transport_security = raw;
  listen = codes "0.0.0.0:8443";
  tun_name = codes "tun0";
  subnet = codes "10.7.0.0/24";
  cert_file = none;
  key_file = none;
  acl_file = codes "acl.json";
  enable_obfuscation = false;
  obfuscation_method = codes "xor";
  enable_padding = true;
  key_rotation_interval = 3600;
  session_timeout = 86400;
  max_connections_per_ip = 5;
  data_dir = codes "/data";
  server_key_file = some (codes "/data/key");
  config_file = none;
  registration_code = none;
  registration_reference_code = some (codes "ref");
  wallet_address = none;
  api_url = codes "https://api.aeronyx.network";
  enable_remote_management = false;
  remote_security_mode = codes "restricted";
}

abbrev made : ServerConfig
made = record {
  mode = hybrid;
  transport_security = raw;
  listen_addr = codes "0.0.0.0:8443";
  tun_name = codes "tun0";
  subnet = codes "10.7.0.0/24";
  cert_file = codes "dummy.crt";
  key_file = codes "dummy.key";
  acl_file = codes "acl.json";
  enable_obfuscation = false;
  obfuscation_method = codes "xor";
  enable_padding = true;
  key_rotation_interval = 3600;
  session_timeout = 86400;
  max_connections_per_ip = 5;
  data_dir = codes "/data";
  server_key_file = codes "/data/key";
  registration_code = none;
  registration_reference_code = some (codes "ref");
  wallet_address = none;
  api_url = codes "https://api.aeronyx.network";
  enable_remote_management = false;
  remote_security_mode = codes "restricted";
}

from_args-made : from_args empty_disk args ≡ ok made
unfolding from_args data_dir_of registration_of chosen from_line listen_of files_of validated
    validate check_vpn has_vpn is_tls needs_files is_security_mode list_beq contains_text is_prefix
from_args-made = refl

from_args-IsValid_example : IsValid empty_disk made × Decided args made
from_args-IsValid_example = from_args-IsValid empty_disk args made from_args-made
