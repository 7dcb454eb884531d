-- ===== src/Handlers/Routes/Access.antt =====
-- What a request can do through the router of crates/ndhcpd/src/handlers/mod.rs, and who can do it,
-- over the database of crates/ndhcpd/src/db/memory.rs.
use ndhcpd.Common.{
  ℕ, ◌≤◌, ◌≡◌, ◌≢◌, refl, subst, Bool, true, Option, some, In, inl, inr, ◌&&◌, Bool-cases,
  Result-cases,
}
use ndhcpd.Bytes.{Text}
use ndhcpd.Config.{Config, RaConfig}
use ndhcpd.Db.Memory.{InMemoryDatabase, memory}
use ndhcpd.Db.Memory.Calls.{WellFormed}
use ndhcpd.Db.Memory.Leases.{memory_leases}
use ndhcpd.Auth.{Request, unix_socket, auth_middleware}
use ndhcpd.Auth.Laws.{Authenticated, auth_middleware-Authenticated}
use ndhcpd.Auth.Unchanged.{auth_middleware-memory}
use ndhcpd.Dhcp.History.{Step, configure}
use ndhcpd.Handlers.{StatusCode, unauthorized}
use ndhcpd.Handlers.Routes.{Route, handle, is_protected, dispatch}
use ndhcpd.Handlers.Routes.Laws.{handle-Kept}

module _ {PasswordHash : Type 0} (parse_hash : Text → Option PasswordHash)
    (verify_password : Text → PasswordHash → Bool) (ra_config : RaConfig) (now : ℕ) where
  -- A request is refused and changes nothing, or its handler runs.
  dispatch_cases :
      (P : InMemoryDatabase × StatusCode → Type 0) (require_auth : Bool) (request : Request)
      (route : Route) (db : InMemoryDatabase)
      → P (handle memory ra_config now route db)
      → P (db, unauthorized)
      → P (dispatch parse_hash verify_password memory ra_config now require_auth request route db)
  unfolding dispatch
  dispatch_cases P require_auth request route db run refuse =
      elim (Bool-cases (require_auth && is_protected route)) [
        | inr public ↦ rw (public, dispatch) run
        | inl closed ↦
            elim (Result-cases (auth_middleware parse_hash verify_password memory request db).1) [
              | inl (_, e) ↦
                  rw
                    (
                      closed,
                      e,
                      dispatch,
                      auth_middleware-memory parse_hash verify_password request db,
                    )
                    run
              | inr (_, e) ↦
                  rw
                    (
                      closed,
                      e,
                      dispatch,
                      auth_middleware-memory parse_hash verify_password request db,
                    )
                    refuse
            ]
      ]

  -- Over the database in memory, with authentication on, a request that neither came through the
  -- Unix socket nor carries a token that an enabled row verifies is answered UNAUTHORIZED and
  -- changes nothing, on every route but the health check.
  pub dispatch_intruder :
      (request : Request) (route : Route) (db : InMemoryDatabase)
      → is_protected route ≡ true
      → request.connection ≢ some unix_socket
      → ¬ Authenticated parse_hash verify_password memory request db
      → dispatch parse_hash verify_password memory ra_config now true request route db
        ≡ (db, unauthorized)
  unfolding dispatch
  dispatch_intruder request route db closed remote unknown =
      elim (Result-cases (auth_middleware parse_hash verify_password memory request db).1) [
        | inl (u, e) ↦
            elim (auth_middleware-Authenticated parse_hash verify_password memory request db e) [
              | inl unix ↦ absurd (remote unix)
              | inr known ↦ absurd (unknown known)
            ]
        | inr (_, e) ↦
            rw (closed, e, dispatch, auth_middleware-memory parse_hash verify_password request db)
              refl
      ]

  -- Every request over a well-formed database in memory, whatever its route and whoever sent it,
  -- keeps the database well formed, and is one of the steps over which the leases stay exclusive: a
  -- change of the configuration that adds no lease.
  pub dispatch-Step :
      (config : Config) (t : ℕ) (require_auth : Bool) (request : Request) (route : Route)
      (db : InMemoryDatabase)
      → t ≤ now
      → WellFormed db
      → WellFormed
          (dispatch parse_hash verify_password memory ra_config now require_auth request route db).0
        × Step memory memory_leases config t db now
            (dispatch parse_hash verify_password memory ra_config now require_auth request route
              db).0
  unfolding memory_leases
  dispatch-Step config t require_auth request route db h w =
      dispatch_cases (λ z. WellFormed z.0 × Step memory memory_leases config t db now z.0)
        require_auth request route db
        (let (kept, same) = handle-Kept ra_config now route db w in
          (kept, configure now _ h (λ l m. subst (In l) same m)))
        (w, configure now db h (λ l m. m))
