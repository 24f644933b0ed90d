-- ===== src/Config/Settings.antt =====
-- src/config/settings.rs: `ServerConfig`, made from the command line or a file, and validated. Paths
-- and addresses are their texts, durations are in seconds; the disk is the record Disk.
pub mod Args
pub mod Valid
mod Tests
use aero_nyx_private_ed.Base.{
  ℕ, Bool, true, false, not, ◌&&◌, ◌||◌, Option, none, some, Text, codes, list_beq, contains_text,
  ltb, if◌then◌else◌, Result, ok, err, ◌>>=◌, ◌>>◌, reject_if, ok_or,
}
use aero_nyx_private_ed.Remote.Path.{join_path}

pub data NodeMode : Type 0 where
  depin_only vpn_enabled hybrid : NodeMode

pub data TransportSecurity : Type 0 where
  tls raw : TransportSecurity

pub data ConfigError : Type 0 where
  invalid invalid_subnet invalid_socket_addr io json : ConfigError

pub record ServerArgs : Type 0 where
  pub mode : NodeMode
  pub transport_security : TransportSecurity
  pub listen : Text
  pub tun_name : Text
  pub subnet : Text
  pub cert_file : Option Text
  pub key_file : Option Text
  pub acl_file : Text
  pub enable_obfuscation : Bool
  pub obfuscation_method : Text
  pub enable_padding : Bool
  pub key_rotation_interval : ℕ
  pub session_timeout : ℕ
  pub max_connections_per_ip : ℕ
  pub data_dir : Text
  pub server_key_file : Option Text
  pub config_file : Option Text
  pub registration_code : Option Text
  pub registration_reference_code : Option Text
  pub wallet_address : Option Text
  pub api_url : Text
  pub enable_remote_management : Bool
  pub remote_security_mode : Text

pub record ServerConfig : Type 0 where
  pub mode : NodeMode
  pub transport_security : TransportSecurity
  pub listen_addr : Text
  pub tun_name : Text
  pub subnet : Text
  pub cert_file : Text
  pub key_file : Text
  pub acl_file : Text
  pub enable_obfuscation : Bool
  pub obfuscation_method : Text
  pub enable_padding : Bool
  pub key_rotation_interval : ℕ
  pub session_timeout : ℕ
  pub max_connections_per_ip : ℕ
  pub data_dir : Text
  pub server_key_file : Text
  pub registration_code : Option Text
  pub registration_reference_code : Option Text
  pub wallet_address : Option Text
  pub api_url : Text
  pub enable_remote_management : Bool
  pub remote_security_mode : Text

-- What is outside. `registration` is the reference code and the wallet address in a file that exists
-- and holds JSON; `config` is `none` where the file cannot be read, else what its JSON holds.
pub record Disk : Type 0 where
  pub exists : Text → Bool
  pub registration : Text → Option (Option Text × Option Text)
  pub config : Text → Option (Result ConfigError ServerConfig)
  pub create_dir_all : Text → Bool
  pub parse_addr : Text → Option Text
  pub platform_data_dir : Text
  pub default_data_dir : Text

unfoldable pub has_vpn : NodeMode → Bool
has_vpn depin_only = false
has_vpn vpn_enabled = true
has_vpn hybrid = true

unfoldable pub is_vpn_enabled : ServerConfig → Bool
unfolding has_vpn
is_vpn_enabled config = has_vpn config.mode

unfoldable pub is_depin_enabled : NodeMode → Bool
is_depin_enabled depin_only = true
is_depin_enabled vpn_enabled = false
is_depin_enabled hybrid = true

unfoldable pub is_tls : TransportSecurity → Bool
is_tls tls = true
is_tls raw = false

-- TLS without the dummy paths: both files must be there.
unfoldable pub needs_files : ServerConfig → Bool
needs_files config =
    is_tls config.transport_security && not (contains_text (codes "dummy") config.cert_file)

unfoldable pub check_vpn : Disk → ServerConfig → Result ConfigError (Unit {0})
check_vpn disk config = do
  reject_if (not (contains_text (codes "/") config.subnet)) invalid_subnet
  reject_if (needs_files config && not (disk.exists config.cert_file)) invalid
  reject_if (needs_files config && not (disk.exists config.key_file)) invalid

unfoldable pub is_obfuscation : Text → Bool
is_obfuscation method =
    list_beq method (codes "xor")
    || (list_beq method (codes "scramblesuit") || list_beq method (codes "obfs4"))

unfoldable pub is_security_mode : Text → Bool
is_security_mode mode = list_beq mode (codes "restricted") || list_beq mode (codes "full-access")

unfoldable pub validate : Disk → ServerConfig → Result ConfigError (Unit {0})
unfolding check_vpn
validate disk config = do
  if has_vpn config.mode then check_vpn disk config else ok tt
  reject_if (config.enable_obfuscation && not (is_obfuscation config.obfuscation_method)) invalid
  reject_if (ltb config.key_rotation_interval 300) invalid
  reject_if (ltb config.session_timeout 300) invalid
  reject_if (not (is_security_mode config.remote_security_mode)) invalid

-- A configuration that is returned once it is valid.
unfoldable pub validated : Disk → ServerConfig → Result ConfigError ServerConfig
unfolding validate
validated disk config = do validate disk config; ok config
