-- ===== src/Cli.antt =====
-- The command line client, crates/ndhcp-cli: a command becomes one request to the API, and the status
-- of the answer decides what it reports. Printing is not modelled.
pub mod Client
pub mod Paths
pub mod Requests
pub mod Routed
pub mod Created
mod Tests
use ndhcpd.Common.{ℕ, Option, none, some, Bool, false, Result, ok, err}
use ndhcpd.Bytes.{Text}
use ndhcpd.Config.{RaConfig}
use ndhcpd.Models.Ipv6Servers.{Ipv6Text}
use ndhcpd.Db.Interface.{Database}
use ndhcpd.Auth.{Request}
use ndhcpd.Handlers.{not_found}
use ndhcpd.Handlers.Routes.{Route, dispatch_unix}
use ndhcpd.Cli.Client.{ApiRequest, Failure, failed, outcome}
use ndhcpd.Cli.Requests.{Commands, request_of}

module _ {PasswordHash : Type 0} (parse_hash : Text → Option PasswordHash)
    (verify_password : Text → PasswordHash → Bool) {S : Type 0} (db : Database S)
    (ra_config : RaConfig) (now : ℕ) (ipv6 : Ipv6Text) (resolve : ApiRequest → Option Route) where
  -- `main` against the daemon's Unix socket. `resolve` is axum's: the route that matches a request,
  -- with its parameters.
  unfoldable pub run : Request → Commands → S → S × Result Failure (Unit {0})
  run peer command s = elim (request_of ipv6 command) [
    | err e ↦ (s, err e)
    | ok request ↦ elim (resolve request) [
      | none ↦ (s, outcome request.method not_found)
      | some route ↦
          let (s', status) =
            dispatch_unix parse_hash verify_password db ra_config now peer route s in
          (s', outcome request.method status)
    ]
  ]
