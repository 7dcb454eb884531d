-- ===== src/Config.antt =====
-- crates/ndhcpd/src/config.rs: the sections of the configuration and their defaults. Reading and
-- writing the YAML file is serde_yaml's.
use ndhcpd.Common.{ℕ, Bool, false, Option, none, some, List, [], ◌∷◌}
use ndhcpd.Bytes.{Text}

pub record LoggingConfig : Type 0 where
  pub syslog : Bool
  pub level : Text

pub record ApiConfig : Type 0 where
  pub listen_address : Text
  pub port : ℕ
  pub unix_socket : Option Text
  pub require_authentication : Option Bool

pub record DhcpConfig : Type 0 where
  pub default_lease_time : ℕ
  pub max_lease_time : ℕ
  pub lease_cleanup_interval_minutes : ℕ

pub record RaConfig : Type 0 where
  pub enabled : Bool
  pub ip6_listen_interfaces : List Text
  pub default_preferred_lifetime : ℕ
  pub default_valid_lifetime : ℕ
  pub default_dns_lifetime : ℕ

pub record Config : Type 0 where
  pub listen_interfaces : List Text
  pub database_path : Text
  pub api : ApiConfig
  pub dhcp : DhcpConfig
  pub ra : Option RaConfig
  pub logging : LoggingConfig

abbrev pub default_log_level : Text
default_log_level = (b'i' ∷ b'n' ∷ b'f' ∷ b'o' ∷ [])

-- The path on every target but FreeBSD.
abbrev pub default_db_path : Text
default_db_path =
    (b'/' ∷ b'v' ∷ b'a' ∷ b'r' ∷ b'/' ∷ b'l' ∷ b'i' ∷ b'b' ∷ b'/' ∷ b'n' ∷ b'd' ∷ b'h' ∷ b'c' ∷ b'p'
      ∷ b'd' ∷ b'/' ∷ b'd' ∷ b'h' ∷ b'c' ∷ b'p' ∷ b'.' ∷ b'd' ∷ b'b' ∷ [])

abbrev pub default_api_address : Text
default_api_address = (b'1' ∷ b'2' ∷ b'7' ∷ b'.' ∷ b'0' ∷ b'.' ∷ b'0' ∷ b'.' ∷ b'1' ∷ [])

abbrev pub default_api_port : ℕ
default_api_port = 8080

abbrev pub default_unix_socket : Option Text
default_unix_socket = some (
    b'/' ∷ b'v' ∷ b'a' ∷ b'r' ∷ b'/' ∷ b'r' ∷ b'u' ∷ b'n' ∷ b'/' ∷ b'n' ∷ b'd' ∷ b'h' ∷ b'c' ∷ b'p'
    ∷ b'd' ∷ b'.' ∷ b's' ∷ b'o' ∷ b'c' ∷ b'k' ∷ [])

abbrev pub default_lease_time : ℕ
default_lease_time = 86400

abbrev pub default_max_lease_time : ℕ
default_max_lease_time = 604800

abbrev pub default_lease_cleanup_interval : ℕ
default_lease_cleanup_interval = 60

abbrev pub default_ra_preferred_lifetime : ℕ
default_ra_preferred_lifetime = 86400

abbrev pub default_ra_valid_lifetime : ℕ
default_ra_valid_lifetime = 2592000

abbrev pub default_ra_dns_lifetime : ℕ
default_ra_dns_lifetime = 86400

-- `RaConfig::default`
abbrev pub default_ra_config : RaConfig
default_ra_config = record {
  enabled = false;
  ip6_listen_interfaces = [];
  default_preferred_lifetime = default_ra_preferred_lifetime;
  default_valid_lifetime = default_ra_valid_lifetime;
  default_dns_lifetime = default_ra_dns_lifetime;
}

-- `LoggingConfig::default`
abbrev pub default_logging_config : LoggingConfig
default_logging_config = record { syslog = false; level = default_log_level }

-- `Config::default`
abbrev pub default_config : Config
default_config = record {
  listen_interfaces = (b'e' ∷ b't' ∷ b'h' ∷ b'0' ∷ []) ∷ [];
  database_path = default_db_path;
  api = record {
    listen_address = default_api_address;
    port = default_api_port;
    unix_socket = default_unix_socket;
    require_authentication = some false;
  };
  dhcp = record {
    default_lease_time = default_lease_time;
    max_lease_time = default_max_lease_time;
    lease_cleanup_interval_minutes = default_lease_cleanup_interval;
  };
  ra = none;
  logging = default_logging_config;
}
