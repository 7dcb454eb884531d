-- ===== src/System/Startup.antt =====
-- What `main` of crates/ndhcpd/src/main.rs decides before it starts its tasks, and `create_database`
-- of crates/ndhcpd/src/db/mod.rs. The files, and the parsing of one, are parameters.
use ndhcpd.Common.{
  ◌≡◌, refl, Bool, false, ◌||◌, Option, none, some, List, [], ◌∷◌, ◌++◌, if◌then◌else◌,
}
use ndhcpd.Bytes.{Text, text_eq}
use ndhcpd.Auth.{strip_prefix, starts_with}
use ndhcpd.Config.{Config, RaConfig, default_config, default_ra_config}

-- On every target but FreeBSD.
abbrev pub default_config_path : Text
default_config_path =
    b'/' ∷ b'e' ∷ b't' ∷ b'c' ∷ b'/' ∷ b'n' ∷ b'd' ∷ b'h' ∷ b'c' ∷ b'p' ∷ b'd' ∷ b'/' ∷ b'c' ∷ b'o'
    ∷ b'n' ∷ b'f' ∷ b'i' ∷ b'g' ∷ b'.' ∷ b'y' ∷ b'a' ∷ b'm' ∷ b'l' ∷ []

abbrev current_dir_config : Text
current_dir_config = b'c' ∷ b'o' ∷ b'n' ∷ b'f' ∷ b'i' ∷ b'g' ∷ b'.' ∷ b'y' ∷ b'a' ∷ b'm' ∷ b'l' ∷ []

abbrev dhcp_db : Text
dhcp_db = b'd' ∷ b'h' ∷ b'c' ∷ b'p' ∷ b'.' ∷ b'd' ∷ b'b' ∷ []

abbrev memory_scheme : Text
memory_scheme = b'm' ∷ b'e' ∷ b'm' ∷ b'o' ∷ b'r' ∷ b'y' ∷ b':' ∷ []

abbrev memory_url : Text
memory_url = b':' ∷ b'm' ∷ b'e' ∷ b'm' ∷ b'o' ∷ b'r' ∷ b'y' ∷ b':' ∷ []

abbrev sqlite_scheme : Text
sqlite_scheme = b's' ∷ b'q' ∷ b'l' ∷ b'i' ∷ b't' ∷ b'e' ∷ b':' ∷ []

pub record Args : Type 0 where
  pub config : Text
  pub data_dir : Option Text
  pub unix_socket : Option Text

-- The databases that a URL can name.
pub data DatabaseKind : Type 0 where
  in_memory : DatabaseKind
  sqlite_file : Text → DatabaseKind

unfoldable pub create_database : Text → Option DatabaseKind
create_database database_url =
    if starts_with memory_scheme database_url || text_eq database_url memory_url
    then some in_memory
    else if starts_with sqlite_scheme database_url
    then some (sqlite_file database_url)
    else none

-- The tasks that `main` starts.
pub data Task : Type 0 where
  api_unix : Text → Task
  api_tcp : (require_auth : Bool) → Task
  ra_server dhcp_server : Task

-- `Path::join` with a file name.
unfoldable pub join_path : Text → Text → Text
join_path [] file = file
join_path (c ∷ []) file = if text_eq (c ∷ []) (b'/' ∷ []) then c ∷ file else c ∷ b'/' ∷ file
join_path (c ∷ d ∷ path) file = c ∷ join_path (d ∷ path) file

abbrev or_default : Option Config → Config
or_default none = default_config
or_default (some config) = config

abbrev is_required : Option Bool → Bool
is_required none = false
is_required (some required) = required

abbrev ra_enabled : Option RaConfig → Bool
ra_enabled none = false
ra_enabled (some ra) = ra.enabled

abbrev unix_tasks : Option Text → List Task
unix_tasks none = []
unix_tasks (some socket_path) = api_unix socket_path ∷ []

unfoldable pub with_data_dir : Option Text → Config → Config
unfolding join_path
with_data_dir none config = config
with_data_dir (some data_dir) config = record config { database_path = join_path data_dir dhcp_db }

unfoldable pub with_unix_socket : Option Text → Config → Config
with_unix_socket none config = config
with_unix_socket (some socket_path) config = record config {
  api = record config.api { unix_socket = some socket_path };
}

unfoldable pub ra_config_of : Config → RaConfig
ra_config_of config = elim config.ra [ none ↦ default_ra_config | some ra ↦ ra ]

-- The tasks of a configuration, in the order in which they start.
unfoldable pub tasks_of : Config → List Task
tasks_of config =
    unix_tasks config.api.unix_socket
    ++ (api_tcp (is_required config.api.require_authentication)
        ∷ (if ra_enabled config.ra then ra_server ∷ dhcp_server ∷ [] else dhcp_server ∷ []))

unfoldable pub db_url : Config → Text
db_url config = sqlite_scheme ++ config.database_path

module _ (exists : Text → Bool) (from_file : Text → Option Config) where
  unfoldable pub config_path : Args → Text
  config_path args =
      if exists args.config
      then args.config
      else if text_eq args.config default_config_path
      then (if exists current_dir_config then current_dir_config else args.config)
      else args.config

  -- The configuration that the tasks get.
  unfoldable pub configure : Args → Config
  unfolding config_path with_data_dir with_unix_socket
  configure args =
      with_unix_socket args.unix_socket
        (with_data_dir args.data_dir (or_default (from_file (config_path args))))

  -- Whatever the arguments and the files, the daemon runs over SQLite: the path of the configuration
  -- cannot name the database in memory.
  pub configured_sqlite :
      (args : Args)
      → create_database (db_url (configure args)) ≡ some (sqlite_file (db_url (configure args)))
  unfolding create_database db_url strip_prefix text_eq
  configured_sqlite args = refl
