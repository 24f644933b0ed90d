-- ===== src/Config/Settings/Args.antt =====
-- `ServerConfig::from_args` and `load_from_file`.
use aero_nyx_private_ed.Base.{
  not, ◌&&◌, Option, none, some, Text, codes, list_beq, if◌then◌else◌, Result, ok, err, ◌>>=◌, ◌>>◌,
  reject_if, ok_or,
}
use aero_nyx_private_ed.Remote.Path.{join_path}
use aero_nyx_private_ed.Config.Settings.{
  ConfigError, invalid, invalid_socket_addr, io, ServerArgs, ServerConfig, Disk, has_vpn, is_tls,
  validated,
}

abbrev pub or_else : Option Text → Option Text → Option Text
or_else (some a) b = some a
or_else none b = b

unfoldable pub data_dir_of : Disk → ServerArgs → Text
data_dir_of disk args =
    if list_beq args.data_dir disk.default_data_dir then disk.platform_data_dir else args.data_dir

-- What the file of a registration has goes before the command line.
unfoldable pub registration_of :
    Option (Option Text × Option Text) → ServerArgs → Option Text × Option Text
registration_of none args = (args.registration_reference_code, args.wallet_address)
registration_of (some (code, wallet)) args =
    (or_else code args.registration_reference_code, or_else wallet args.wallet_address)

-- The address of the command line, unless it is the default.
unfoldable pub overriding_addr : Disk → ServerArgs → ServerConfig → Result ConfigError Text
overriding_addr disk args config =
    if list_beq args.listen (codes "0.0.0.0:8443")
    then ok config.listen_addr
    else ok_or (disk.parse_addr args.listen) invalid_socket_addr

-- A configuration file with the command line's overrides.
unfoldable pub overridden :
    Disk → ServerArgs → Option Text × Option Text → ServerConfig → Result ConfigError ServerConfig
unfolding overriding_addr
overridden disk args (code, wallet) config = do
  addr ← overriding_addr disk args config
  ok (record config {
    mode = args.mode;
    transport_security = args.transport_security;
    listen_addr = addr;
    registration_reference_code = or_else code config.registration_reference_code;
    wallet_address = or_else wallet config.wallet_address;
    enable_remote_management = args.enable_remote_management;
    remote_security_mode = args.remote_security_mode;
  })

unfoldable pub listen_of : Disk → ServerArgs → Result ConfigError Text
listen_of disk args =
    if has_vpn args.mode
    then ok_or (disk.parse_addr args.listen) invalid_socket_addr
    else ok (codes "127.0.0.1:8443")

abbrev pub both : Option Text → Option Text → Result ConfigError (Text × Text)
both (some cert) (some key) = ok (cert, key)
both _ _ = err invalid

unfoldable pub files_of : ServerArgs → Result ConfigError (Text × Text)
files_of args =
    if has_vpn args.mode && is_tls args.transport_security
    then both args.cert_file args.key_file
    else ok (codes "dummy.crt", codes "dummy.key")

abbrev pub value_or : Option Text → Text → Text
value_or none d = d
value_or (some v) d = v

-- The configuration that the command line alone gives.
unfoldable pub from_line :
    Disk → ServerArgs → Option Text × Option Text → Result ConfigError ServerConfig
unfolding listen_of files_of
from_line disk args (code, wallet) = do
  listen_addr ← listen_of disk args
  files ← files_of args
  reject_if
      (not (disk.exists (data_dir_of disk args))
        && not (disk.create_dir_all (data_dir_of disk args)))
      io
  ok (record {
    mode = args.mode;
    transport_security = args.transport_security;
    listen_addr = listen_addr;
    tun_name = args.tun_name;
    subnet = args.subnet;
    cert_file = files.0;
    key_file = files.1;
    acl_file = args.acl_file;
    enable_obfuscation = args.enable_obfuscation;
    obfuscation_method = args.obfuscation_method;
    enable_padding = args.enable_padding;
    key_rotation_interval = args.key_rotation_interval;
    session_timeout = args.session_timeout;
    max_connections_per_ip = args.max_connections_per_ip;
    data_dir = data_dir_of disk args;
    server_key_file =
        value_or args.server_key_file
          (join_path (data_dir_of disk args) (codes "server_keypair.json"));
    registration_code = args.registration_code;
    registration_reference_code = code;
    wallet_address = wallet;
    api_url = args.api_url;
    enable_remote_management = args.enable_remote_management;
    remote_security_mode = args.remote_security_mode;
  })

abbrev pub config_of : Disk → Option Text → Option (Result ConfigError ServerConfig)
config_of disk none = none
config_of disk (some path) = disk.config path

-- A file that cannot be read is passed over; one that is not JSON is an error.
unfoldable pub chosen :
    Disk
    → ServerArgs
    → Option Text × Option Text
    → Option (Result ConfigError ServerConfig)
    → Result ConfigError ServerConfig
unfolding overridden from_line
chosen disk args registered none = from_line disk args registered
chosen disk args registered (some read) = read >>= overridden disk args registered

unfoldable pub from_args : Disk → ServerArgs → Result ConfigError ServerConfig
unfolding chosen validated registration_of
from_args disk args =
    let file = join_path (data_dir_of disk args) (codes "registration.json") in
    let registered = registration_of (disk.registration file) args in
    chosen disk args registered (config_of disk args.config_file) >>= validated disk

-- `load_from_file`: here a file that cannot be read is an error, too.
unfoldable pub load_from_file : Disk → Text → Result ConfigError ServerConfig
unfolding validated
load_from_file disk path = do
  read ← ok_or (disk.config path) io
  config ← read
  validated disk config
