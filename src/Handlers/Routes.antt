-- ===== src/Handlers/Routes.antt =====
-- `create_router_with_auth` of crates/ndhcpd/src/handlers/mod.rs: which handler a request reaches,
-- and whether the middleware stands before it. A request is given with its route resolved and its
-- parameters decoded; of a response only the status is kept.
pub mod Changes
pub mod Laws
pub mod Access
use ndhcpd.Common.{ℕ, Bool, true, false, ◌&&◌, Option, none, some, Result, ok, err, if◌then◌else◌}
use ndhcpd.Bytes.{Text}
use ndhcpd.Config.{Config, RaConfig}
use ndhcpd.Models.{Subnet, DynamicRange, StaticIp, IaPrefix}
use ndhcpd.Db.Interface.{Database}
use ndhcpd.Auth.{Request, auth_middleware}
use ndhcpd.Handlers.{StatusCode, status_ok, unauthorized}
use ndhcpd.Handlers.Subnets
use ndhcpd.Handlers.Others
use ndhcpd.Handlers.Tokens

-- The routes in their order, each with what its handler extracts from the request. `create_token`
-- has the name, and the token that the handler draws with its hash and salt.
pub data Route : Type 0 where
  list_subnets : Route
  create_subnet : Subnet → Route
  get_subnet : ℕ → Route
  update_subnet : ℕ → Subnet → Route
  delete_subnet : ℕ → Route
  list_ranges : Option ℕ → Route
  create_range : DynamicRange → Route
  delete_range : ℕ → Route
  list_static_ips : Option ℕ → Route
  create_static_ip : StaticIp → Route
  delete_static_ip : Text → Route
  update_static_ip_hostname : Text → Option Text → Route
  list_leases : Route
  list_tokens : Route
  create_token : Text → Text → Option (Text × Text) → Route
  delete_token : ℕ → Route
  toggle_token : ℕ → Route
  list_ia_prefixes : Option Text → Route
  create_ia_prefix : IaPrefix → Route
  get_ia_prefix : ℕ → Route
  update_ia_prefix : ℕ → IaPrefix → Route
  delete_ia_prefix : ℕ → Route
  health_check : Route

-- The status of a response: of one with a body, of one without, and of one that is a body alone.
abbrev pub status_and_body {ℓ} : {A : Type ℓ} → Result StatusCode (StatusCode × A) → StatusCode
status_and_body (ok (code, body)) = code
status_and_body (err code) = code

abbrev pub status_only : Result StatusCode StatusCode → StatusCode
status_only (ok code) = code
status_only (err code) = code

abbrev pub body_only {ℓ} : {A : Type ℓ} → Result StatusCode A → StatusCode
body_only (ok body) = status_ok
body_only (err code) = code

module _ {S : Type 0} (db : Database S) (ra_config : RaConfig) (now : ℕ) where
  -- The handler of a route.
  unfoldable pub handle : Route → S → S × StatusCode
  handle list_subnets s = (s, body_only (Subnets.list_subnets db s))
  handle (create_subnet x) s = let (s', r) = Subnets.create_subnet db x s in (s', status_and_body r)
  handle (get_subnet i) s = (s, body_only (Subnets.get_subnet db i s))
  handle (update_subnet i x) s = let (s', r) = Subnets.update_subnet db i x s in (s', status_only r)
  handle (delete_subnet i) s = let (s', r) = Subnets.delete_subnet db i s in (s', status_only r)
  handle (list_ranges i) s = (s, body_only (Others.list_ranges db i s))
  handle (create_range x) s = let (s', r) = Others.create_range db x s in (s', status_and_body r)
  handle (delete_range i) s = let (s', r) = Others.delete_range db i s in (s', status_only r)
  handle (list_static_ips i) s = (s, body_only (Others.list_static_ips db i s))
  handle (create_static_ip x) s =
      let (s', r) = Others.create_static_ip db x s in (s', status_only r)
  handle (delete_static_ip ip) s =
      let (s', r) = Others.delete_static_ip db ip s in (s', status_only r)
  handle (update_static_ip_hostname ip h) s =
      let (s', r) = Others.update_static_ip_hostname db ip h s in (s', status_only r)
  handle list_leases s = (s, body_only (Others.list_leases db now s))
  handle list_tokens s = (s, body_only (Tokens.list_tokens db s))
  handle (create_token name token hashed) s =
      let (s', r) = Tokens.create_token db name token hashed s in (s', status_and_body r)
  handle (delete_token i) s = let (s', r) = Tokens.delete_token db i s in (s', status_only r)
  handle (toggle_token i) s = let (s', r) = Tokens.toggle_token db i s in (s', status_only r)
  handle (list_ia_prefixes i) s = (s, body_only (Others.list_ia_prefixes db i s))
  handle (create_ia_prefix x) s =
      let (s', r) = Others.create_ia_prefix db ra_config x s in (s', status_and_body r)
  handle (get_ia_prefix i) s = (s, body_only (Others.get_ia_prefix db i s))
  handle (update_ia_prefix i x) s =
      let (s', r) = Others.update_ia_prefix db i x s in (s', status_only r)
  handle (delete_ia_prefix i) s =
      let (s', r) = Others.delete_ia_prefix db i s in (s', status_only r)
  handle health_check s = (s, status_ok)

-- The routes of `protected_routes`: all but the health check.
unfoldable pub is_protected : Route → Bool
is_protected health_check = false
is_protected _ = true

module _ {PasswordHash : Type 0} (parse_hash : Text → Option PasswordHash)
    (verify_password : Text → PasswordHash → Bool) {S : Type 0} (db : Database S)
    (ra_config : RaConfig) (now : ℕ) where
  -- A request to a router that was built with `require_auth`.
  unfoldable pub dispatch : Bool → Request → Route → S → S × StatusCode
  unfolding is_protected
  dispatch require_auth request route s =
      if require_auth && is_protected route
      then (let (s', answer) = auth_middleware parse_hash verify_password db request s in
          elim answer [ ok _ ↦ handle db ra_config now route s' | err _ ↦ (s', unauthorized) ])
      else handle db ra_config now route s

  -- The two routers of `main`: over TCP, `require_authentication.unwrap_or(false)` decides.
  unfoldable pub dispatch_tcp : Config → Request → Route → S → S × StatusCode
  dispatch_tcp config =
      dispatch (elim config.api.require_authentication [ none ↦ false | some required ↦ required ])

  unfoldable pub dispatch_unix : Request → Route → S → S × StatusCode
  dispatch_unix = dispatch false
