-- ===== src/Auth/Unchanged.antt =====
-- The middleware of crates/ndhcpd/src/auth/mod.rs over the database of crates/ndhcpd/src/db/memory.rs,
-- which keeps no time of the last use.
use ndhcpd.Common.{
  ℕ, ◌≡◌, refl, true, false, Option, none, some, List, [], ◌∷◌, inl, inr, Option-cases,
  Result-cases, Bool,
}
use ndhcpd.Bytes.{Text}
use ndhcpd.Db.Memory
use ndhcpd.Db.Memory.{InMemoryDatabase, memory}
use ndhcpd.Auth.{
  Request, unix_socket, tcp, strip_prefix, bearer, verify, verify_rows, verify_token_in_db,
  check_header, auth_middleware,
}

module _ {PasswordHash : Type 0} (parse_hash : Text → Option PasswordHash)
    (verify_password : Text → PasswordHash → Bool) where
  verify_rows-memory :
      (token : Text) (rows : List (Text × ℕ)) (db : InMemoryDatabase)
      → (verify_rows parse_hash verify_password memory token rows db).0 ≡ db
  unfolding verify_rows Memory.update_token_last_used
  verify_rows-memory token [] db = refl
  verify_rows-memory token ((hash, enabled) ∷ rows) db =
      elim (Result-cases (verify parse_hash verify_password token hash)) [
        | inr (e, g) ↦ rw (g, verify_rows) refl
        | inl (true, g) ↦ rw (g, verify_rows) refl
        | inl (false, g) ↦ rw (g, verify_rows) (verify_rows-memory token rows db)
      ]

  check_header-memory :
      (header : Option Text) (db : InMemoryDatabase)
      → (check_header parse_hash verify_password memory header db).0 ≡ db
  unfolding check_header verify_token_in_db Memory.list_tokens
  check_header-memory none db = refl
  check_header-memory (some text) db = elim (Option-cases (strip_prefix bearer text)) [
    | inl e ↦ rw (e, check_header) refl
    | inr (token, e) ↦ rw (e, check_header) (verify_rows-memory token _ db)
  ]

  -- The middleware leaves the database in memory as it is.
  pub auth_middleware-memory :
      (request : Request) (db : InMemoryDatabase)
      → (auth_middleware parse_hash verify_password memory request db).0 ≡ db
  unfolding auth_middleware
  auth_middleware-memory request db = elim (Option-cases request.connection) [
    | inl e ↦ rw (e, auth_middleware) (check_header-memory request.authorization db)
    | inr (unix_socket, e) ↦ rw (e, auth_middleware) refl
    | inr (tcp, e) ↦ rw (e, auth_middleware) (check_header-memory request.authorization db)
  ]
