-- ===== src/Cli/Client.antt =====
-- crates/ndhcp-cli/src/client.rs: requests as data, and what the client makes of a status. JSON is
-- not modelled: a body is the value that is serialised.
use ndhcpd.Common.{
  Bool, true, false, Option, none, some, [], ◌∷◌, ◌++◌, Result, ok, err, ◌||◌, if◌then◌else◌,
}
use ndhcpd.Bytes.{Text}
use ndhcpd.Models.{Subnet, DynamicRange, StaticIp, IaPrefix}
use ndhcpd.Auth.{starts_with}
use ndhcpd.Handlers.{
  StatusCode, status_ok, created, no_content, unauthorized, not_found, conflict,
  internal_server_error,
}

pub data Method : Type 0 where
  get post put patch delete : Method

pub data Body : Type 0 where
  empty : Body
  subnet : Subnet → Body
  range : DynamicRange → Body
  static_ip : StaticIp → Body
  hostname : Option Text → Body
  ia_prefix : IaPrefix → Body

pub record ApiRequest : Type 0 where
  pub method : Method
  pub path : Text
  pub body : Body

-- `Err` of a command: an argument that cannot be parsed, or the answer of the daemon.
pub data Failure : Type 0 where
  bad_argument already_exists : Failure
  failed : StatusCode → Failure

abbrev pub is_success : StatusCode → Bool
is_success status_ok = true
is_success created = true
is_success no_content = true
is_success unauthorized = false
is_success not_found = false
is_success conflict = false
is_success internal_server_error = false

-- `put`, `patch` and `delete` ask for success.
abbrev succeed : StatusCode → Result Failure (Unit {0})
succeed status = if is_success status then ok tt else err (failed status)

abbrev get_outcome : StatusCode → Result Failure (Unit {0})
get_outcome status_ok = ok tt
get_outcome status = err (failed status)

abbrev post_outcome : StatusCode → Result Failure (Unit {0})
post_outcome conflict = err already_exists
post_outcome status = succeed status

abbrev pub outcome : Method → StatusCode → Result Failure (Unit {0})
outcome get = get_outcome
outcome post = post_outcome
outcome put = succeed
outcome patch = succeed
outcome delete = succeed

pub data ApiClient : Type 0 where
  unix : Text → ApiClient
  http : Text → ApiClient

abbrev http_prefix : Text
http_prefix = b'h' ∷ b't' ∷ b't' ∷ b'p' ∷ b':' ∷ b'/' ∷ b'/' ∷ []

abbrev https_prefix : Text
https_prefix = b'h' ∷ b't' ∷ b't' ∷ b'p' ∷ b's' ∷ b':' ∷ b'/' ∷ b'/' ∷ []

abbrev default_socket : Text
default_socket =
    b'/' ∷ b'v' ∷ b'a' ∷ b'r' ∷ b'/' ∷ b'r' ∷ b'u' ∷ b'n' ∷ b'/' ∷ b'n' ∷ b'd' ∷ b'h' ∷ b'c' ∷ b'p'
    ∷ b'd' ∷ b'.' ∷ b's' ∷ b'o' ∷ b'c' ∷ b'k' ∷ []

-- The client that `main` builds from `--api-url`.
unfoldable pub client_of : Option Text → ApiClient
client_of none = unix default_socket
client_of (some url) =
    if starts_with http_prefix url || starts_with https_prefix url then http url else unix url

-- `build_uri`: a socket with a path, or a URL.
unfoldable pub build_uri : ApiClient → Text → Option Text × Text
build_uri (unix socket_path) path = (some socket_path, path)
build_uri (http base_url) path = (none, base_url ++ path)
