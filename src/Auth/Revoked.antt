-- ===== src/Auth/Revoked.antt =====
-- A token that is disabled or deleted in the database of crates/ndhcpd/src/db/memory.rs no longer
-- passes the middleware of crates/ndhcpd/src/auth/mod.rs.
use ndhcpd.Common.{
  ℕ, ◌≡◌, ◌≢◌, sym, ap, subst, ◌∙◌, ◌⊎◌, inl, inr, Bool, true, false, Option, some, List, ok, In,
  In-map, In-retain, ◌++◌, retain, map, arith, ◌==◌, ==_iff,
}
use ndhcpd.Bytes.{Text}
use ndhcpd.Db.Memory
use ndhcpd.Db.Memory.{InMemoryDatabase, Token, memory}
use ndhcpd.Db.Memory.Tables.{In-updated}
use ndhcpd.Db.Memory.Calls.{WellFormed}
use ndhcpd.Auth.{Request, unix_socket, bearer, verify, auth_middleware}
use ndhcpd.Auth.Laws.{Lets, Authenticated, auth_middleware-Authenticated}

module _ {PasswordHash : Type 0} (parse_hash : Text → Option PasswordHash)
    (verify_password : Text → PasswordHash → Bool) where
  -- The request itself carries, in its header, a token that verifies against an enabled row of the
  -- table that is not row `i`.
  pub record ByAnother (request : Request) (i : ℕ) (db : InMemoryDatabase) : Type 0 where
    pub token : Text
    pub header : request.authorization ≡ some (bearer ++ token)
    pub row : Token
    pub listed : In row db.tokens
    pub another : row.id ≢ i
    pub enabled : row.enabled ≡ 1
    pub verified : verify parse_hash verify_password token row.token_hash ≡ ok true

  -- What the middleware read of the row that let the request in.
  record Admitting (request : Request) (db : InMemoryDatabase) : Type 0 where
    token : Text
    header : request.authorization ≡ some (bearer ++ token)
    row : Token
    listed : In row db.tokens
    enabled : row.enabled ≡ 1
    verified : verify parse_hash verify_password token row.token_hash ≡ ok true

  Admitting-row :
      (request : Request) (db : InMemoryDatabase)
      → Authenticated parse_hash verify_password memory request db
      → Admitting request db
  unfolding Memory.list_tokens
  Admitting-row request db a =
      let kept : List Token = retain (λ (t : Token). t.enabled == 1) db.tokens in
      let pair : Token → Text × ℕ = λ t. (t.token_hash, t.enabled) in
      let same : map pair kept ≡ a.rows = ground (arith, a.listed) in
      let (t, m, e) = In-map pair kept a.row (subst (In a.row) (sym same) a.row_listed) in
      let (on, k) = In-retain (λ (t : Token). t.enabled == 1) db.tokens t m in
      let lets : Lets parse_hash verify_password a.token (pair t) = rw e at a.lets in
      record {
        row = t;
        listed = k;
        enabled = lets.enabled;
        token = a.token;
        header = a.header;
        verified = lets.verified;
      }

  disabled_row :
      (i : ℕ) (db : InMemoryDatabase) (t : Token)
      → WellFormed db
      → In t (Memory.toggle_token i false db).0.tokens
      → t.enabled ≡ 1
      → In t db.tokens × (t.id ≢ i)
  unfolding Memory.toggle_token
  disabled_row i db t w m on =
      elim (In-updated (λ (t : Token). some t.id) (λ t. t.id == i) _ db.tokens t
        (λ x z e f. ap some ((==_iff x.id i).0 e ∙ sym ((==_iff z.id i).0 f))) w.tokens.unique m) [
          | inl (x, n, e, same) ↦ absurd (ground (arith, ap (λ (t : Token). t.enabled) same, on))
          | inr (n, e) ↦ (n, ground (arith, e))
        ]

  deleted_row :
      (i : ℕ) (db : InMemoryDatabase) (t : Token)
      → In t (Memory.delete_token i db).0.tokens
      → In t db.tokens × (t.id ≢ i)
  unfolding Memory.delete_token
  deleted_row i db t m = let (e, n) = In-retain _ db.tokens t m in (n, ground (arith, e))

  -- Once a token of a well-formed table is disabled or deleted, a request that passes came through
  -- the Unix socket or has a bearer token in its header that verifies against another row, one that
  -- is enabled.
  pub revoked :
      (request : Request) (i : ℕ) (db db' : InMemoryDatabase)
      → WellFormed db
      → (db' ≡ (Memory.toggle_token i false db).0) ⊎ (db' ≡ (Memory.delete_token i db).0)
      → (auth_middleware parse_hash verify_password memory request db').1 ≡ ok tt
      → (request.connection ≡ some unix_socket) ⊎ ByAnother request i db
  revoked request i db db' w change h =
      elim (auth_middleware-Authenticated parse_hash verify_password memory request db' h) [
        | inl unix ↦ inl unix
        | inr a ↦
            let t = Admitting-row request db' a in
            let (n, another) = still change t in
            inr (record {
              row = t.row;
              listed = n;
              another = another;
              enabled = t.enabled;
              token = t.token;
              header = t.header;
              verified = t.verified;
            })
      ]
    where
      still :
          (db' ≡ (Memory.toggle_token i false db).0) ⊎ (db' ≡ (Memory.delete_token i db).0)
          → (t : Admitting request db') → In t.row db.tokens × (t.row.id ≢ i)
      still (inl e) t =
          disabled_row i db t.row w (subst (λ (z : InMemoryDatabase). In t.row z.tokens) e t.listed)
            t.enabled
      still (inr e) t =
          deleted_row i db t.row (subst (λ (z : InMemoryDatabase). In t.row z.tokens) e t.listed)
