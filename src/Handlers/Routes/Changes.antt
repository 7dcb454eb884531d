-- ===== src/Handlers/Routes/Changes.antt =====
-- What a request can do to any database through the router of crates/ndhcpd/src/handlers/mod.rs: the
-- calls of the trait that its handler and the middleware make.
use ndhcpd.Common.{
  ℕ, ◌≡◌, refl, Bool, true, false, ◌&&◌, Option, none, some, List, [], ◌∷◌, find, arith, any, not,
  inl, inr, Bool-cases, Option-cases, Result-cases,
}
use ndhcpd.Bytes.{Text, IsU32}
use ndhcpd.Config.{RaConfig}
use ndhcpd.Models.{ApiToken, IaPrefix}
use ndhcpd.Models.Fits.{SubnetFits, RangeFits, PrefixFits}
use ndhcpd.Db.Interface.{Database, has_id}
use ndhcpd.Db.Calls
use ndhcpd.Db.Calls.{Call, spares_leases, Fits, apply_to, Changes, unchanged, then_call}
use ndhcpd.Auth.{
  Request, unix_socket, tcp, strip_prefix, bearer, verify, verify_rows, verify_token_in_db,
  check_header, auth_middleware,
}
use ndhcpd.Handlers.Subnets
use ndhcpd.Handlers.Subnets.{overlap}
use ndhcpd.Handlers.Others
use ndhcpd.Handlers.Others.{with_defaults}
use ndhcpd.Handlers.Tokens
use ndhcpd.Handlers.Routes.{
  Route, list_subnets, create_subnet, get_subnet, update_subnet, delete_subnet, list_ranges,
  create_range, delete_range, list_static_ips, create_static_ip, delete_static_ip,
  update_static_ip_hostname, list_leases, list_tokens, create_token, delete_token, toggle_token,
  list_ia_prefixes, create_ia_prefix, get_ia_prefix, update_ia_prefix, delete_ia_prefix,
  health_check, handle, is_protected, dispatch,
}

-- The values of a request are within their Rust types.
abbrev pub IsTyped : Route → Type 0
IsTyped (create_subnet x) = SubnetFits x
IsTyped (update_subnet i x) = SubnetFits x
IsTyped (create_range x) = RangeFits x
IsTyped (create_static_ip x) = IsU32 x.ip_address
IsTyped (create_ia_prefix x) = PrefixFits x
IsTyped (update_ia_prefix i x) = PrefixFits x
IsTyped _ = Unit

-- So are the defaults of the configuration for prefixes.
pub record RaFits (ra_config : RaConfig) : Type 0 where
  pub preferred_lifetime : IsU32 ra_config.default_preferred_lifetime
  pub valid_lifetime : IsU32 ra_config.default_valid_lifetime
  pub dns_lifetime : IsU32 ra_config.default_dns_lifetime

with_defaults-PrefixFits :
    (ra_config : RaConfig) (x : IaPrefix)
    → RaFits ra_config
    → PrefixFits x
    → PrefixFits (with_defaults ra_config x)
unfolding with_defaults
with_defaults-PrefixFits ra_config x ra fits = record {
  prefix = fits.prefix;
  prefix_len = fits.prefix_len;
  preferred_lifetime = ground (arith, fits.preferred_lifetime, ra.preferred_lifetime);
  valid_lifetime = ground (arith, fits.valid_lifetime, ra.valid_lifetime);
  dns_servers = fits.dns_servers;
  dns_lifetime = ground (arith, fits.dns_lifetime, ra.dns_lifetime);
}

module _ {S : Type 0} (db : Database S) where
  -- A handler changes nothing or makes one update, and not one of the lease table.
  pub handle_cases :
      (P : S → Type 0) (ra_config : RaConfig) (now : ℕ) (route : Route) (s : S)
      → P s
      → ((c : Call)
          → spares_leases c ≡ true
          → (RaFits ra_config → IsTyped route → Fits c)
          → P (apply_to db c s))
      → P (handle db ra_config now route s).0
  unfolding handle apply_to Subnets.create_subnet Subnets.update_subnet Subnets.delete_subnet
      Others.create_range Others.delete_range Others.create_static_ip Others.delete_static_ip
      Others.update_static_ip_hostname Others.create_ia_prefix Others.update_ia_prefix
      Others.delete_ia_prefix Tokens.create_token Tokens.delete_token Tokens.toggle_token
  handle_cases P ra_config now (create_subnet x) s same call =
      elim (Result-cases (db.list_subnets s)) [
        | inr (_, e) ↦ rw (e, Subnets.create_subnet) same
        | inl (existing, e) ↦ elim (Bool-cases (any (overlap x) existing)) [
          | inl hit ↦ rw (e, hit, Subnets.create_subnet) same
          | inr clear ↦
              rw (e, clear, Subnets.create_subnet) (call (Calls.create_subnet x) refl (λ ra h. h))
        ]
      ]
  handle_cases P ra_config now (update_subnet i x) s same call =
      call (Calls.update_subnet i x) refl (λ ra h. h)
  handle_cases P ra_config now (delete_subnet i) s same call =
      call (Calls.delete_subnet i) refl (λ ra _. tt)
  handle_cases P ra_config now (create_range x) s same call =
      call (Calls.create_range x) refl (λ ra h. h)
  handle_cases P ra_config now (delete_range i) s same call =
      call (Calls.delete_range i) refl (λ ra _. tt)
  handle_cases P ra_config now (create_static_ip x) s same call =
      call (Calls.create_static_ip x) refl (λ ra h. h)
  handle_cases P ra_config now (delete_static_ip ip) s same call =
      call (Calls.delete_static_ip ip) refl (λ ra _. tt)
  handle_cases P ra_config now (update_static_ip_hostname ip h) s same call =
      call (Calls.update_static_ip_hostname ip h) refl (λ ra _. tt)
  handle_cases P ra_config now (create_token name token none) s same call = same
  handle_cases P ra_config now (create_token name token (some (hash, salt))) s same call =
      call (Calls.create_token name hash salt) refl (λ ra _. tt)
  handle_cases P ra_config now (delete_token i) s same call =
      call (Calls.delete_token i) refl (λ ra _. tt)
  handle_cases P ra_config now (toggle_token i) s same call =
      elim (Result-cases (db.list_api_tokens s)) [
        | inr (_, e) ↦ rw (e, Tokens.toggle_token) same
        | inl (tokens, e) ↦ elim (Option-cases (find (λ (t : ApiToken). has_id i t.id) tokens)) [
          | inl missed ↦ rw (e, missed, Tokens.toggle_token) same
          | inr (token, found) ↦
              rw (e, found, Tokens.toggle_token)
                (call (Calls.toggle_token i (not token.enabled)) refl (λ ra _. tt))
        ]
      ]
  handle_cases P ra_config now (create_ia_prefix x) s same call =
      call (Calls.create_ia_prefix (with_defaults ra_config x)) refl
        (λ ra h. with_defaults-PrefixFits ra_config x ra h)
  handle_cases P ra_config now (update_ia_prefix i x) s same call =
      call (Calls.update_ia_prefix i x) refl (λ ra h. h)
  handle_cases P ra_config now (delete_ia_prefix i) s same call =
      call (Calls.delete_ia_prefix i) refl (λ ra _. tt)
  handle_cases P ra_config now list_subnets s same call = same
  handle_cases P ra_config now (get_subnet i) s same call = same
  handle_cases P ra_config now (list_ranges i) s same call = same
  handle_cases P ra_config now (list_static_ips i) s same call = same
  handle_cases P ra_config now list_leases s same call = same
  handle_cases P ra_config now list_tokens s same call = same
  handle_cases P ra_config now (list_ia_prefixes i) s same call = same
  handle_cases P ra_config now (get_ia_prefix i) s same call = same
  handle_cases P ra_config now health_check s same call = same

  module _ {PasswordHash : Type 0} (parse_hash : Text → Option PasswordHash)
      (verify_password : Text → PasswordHash → Bool) where
    verify_rows-Changes :
        (token : Text) (rows : List (Text × ℕ)) (s : S)
        → Changes db s (verify_rows parse_hash verify_password db token rows s).0
    unfolding verify_rows apply_to
    verify_rows-Changes token [] s = unchanged
    verify_rows-Changes token ((hash, enabled) ∷ rows) s =
        elim (Result-cases (verify parse_hash verify_password token hash)) [
          | inr (e, g) ↦ rw (g, verify_rows) unchanged
          | inl (true, g) ↦
              rw (g, verify_rows) (then_call (Calls.update_token_last_used hash) refl tt unchanged)
          | inl (false, g) ↦ rw (g, verify_rows) (verify_rows-Changes token rows s)
        ]

    check_header-Changes :
        (header : Option Text) (s : S)
        → Changes db s (check_header parse_hash verify_password db header s).0
    unfolding check_header verify_token_in_db
    check_header-Changes none s = unchanged
    check_header-Changes (some auth_header) s =
        elim (Option-cases (strip_prefix bearer auth_header)) [
          | inl e ↦ rw (e, check_header) unchanged
          | inr (token, e) ↦ elim (Result-cases (db.list_tokens s)) [
            | inr (_, f) ↦ rw (e, f, check_header, verify_token_in_db) unchanged
            | inl (rows, f) ↦
                rw (e, f, check_header, verify_token_in_db) (verify_rows-Changes token rows s)
          ]
        ]

    auth_middleware-Changes :
        (request : Request) (s : S)
        → Changes db s (auth_middleware parse_hash verify_password db request s).0
    unfolding auth_middleware
    auth_middleware-Changes request s = elim (Option-cases request.connection) [
      | inl e ↦ rw (e, auth_middleware) (check_header-Changes request.authorization s)
      | inr (unix_socket, e) ↦ rw (e, auth_middleware) unchanged
      | inr (tcp, e) ↦ rw (e, auth_middleware) (check_header-Changes request.authorization s)
    ]

    -- Over any database a request does no more than calls that change no lease, whatever its
    -- route, its parameters and its sender.
    pub dispatch-Changes :
        (ra_config : RaConfig) (now : ℕ) (require_auth : Bool) (request : Request) (route : Route)
        (s : S)
        → RaFits ra_config
        → IsTyped route
        → Changes db s
            (dispatch parse_hash verify_password db ra_config now require_auth request route s).0
    unfolding dispatch
    dispatch-Changes ra_config now require_auth request route s ra typed =
        elim (Bool-cases (require_auth && is_protected route)) [
          | inr public ↦ rw (public, dispatch) (handled s unchanged)
          | inl closed ↦
              elim (Result-cases (auth_middleware parse_hash verify_password db request s).1) [
                | inl (_, e) ↦
                    rw (closed, e, dispatch) (handled _ (auth_middleware-Changes request s))
                | inr (_, e) ↦ rw (closed, e, dispatch) (auth_middleware-Changes request s)
              ]
        ]
      where
        handled : (s' : S) → Changes db s s' → Changes db s (handle db ra_config now route s').0
        handled s' before =
            handle_cases (Changes db s) ra_config now route s' before
              (λ c h fits. then_call c h (fits ra typed) before)
