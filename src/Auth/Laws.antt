-- ===== src/Auth/Laws.antt =====
-- Who passes the middleware of crates/ndhcpd/src/auth/mod.rs, and that a token that is disabled or
-- deleted no longer does.
use ndhcpd.Common.{
  ℕ, ◌≡◌, refl, ap, ◌∙◌, ◌⊎◌, inl, inr, Bool, true, false, Option, some, List, [], ◌∷◌, ◌++◌, ok,
  In, here, there, arith, ◌==◌, ==_iff, Option-cases, Result-cases, Bool-cases,
}
use ndhcpd.Bytes.{Text}
use ndhcpd.Db.Interface.{Database}
use ndhcpd.Auth.{
  Request, unix_socket, tcp, strip_prefix, bearer, verify, verify_rows, verify_token_in_db,
  check_header, auth_middleware,
}

strip_prefix-append : (p text rest : Text) → strip_prefix p text ≡ some rest → text ≡ p ++ rest
unfolding strip_prefix
strip_prefix-append [] text rest h = ground arith
strip_prefix-append (p ∷ ps) [] rest h = cc
strip_prefix-append (p ∷ ps) (c ∷ cs) rest h = elim (Bool-cases (p == c)) [
  | inr e ↦ absurd (ground (arith, e))
  | inl e ↦
      let tail : cs ≡ ps ++ rest = strip_prefix-append ps cs rest (ground (arith, e)) in
      rw (tail, (==_iff p c).0 e)
]

module _ {PasswordHash : Type 0} (parse_hash : Text → Option PasswordHash)
    (verify_password : Text → PasswordHash → Bool) where
  -- A row of the token list that lets the token in.
  pub record Lets (token : Text) (row : Text × ℕ) : Type 0 where
    pub verified : verify parse_hash verify_password token row.0 ≡ ok true
    pub enabled : row.1 ≡ 1

  module _ {S : Type 0} (db : Database S) where
    verify_rows-Lets :
        (token : Text) (rows : List (Text × ℕ)) (s : S)
        → (verify_rows parse_hash verify_password db token rows s).1 ≡ ok true
        → (row : Text × ℕ) × In row rows × Lets token row
    unfolding verify_rows
    verify_rows-Lets token [] s h = cc
    verify_rows-Lets token ((hash, enabled) ∷ rows) s h =
        elim (Result-cases (verify parse_hash verify_password token hash)) [
          | inr (_, e) ↦ absurd (ground (arith, e))
          | inl (true, e) ↦
              ((hash, enabled), here refl, record { verified = e; enabled = ground (arith, e) })
          | inl (false, e) ↦
              let (row, m, lets) = verify_rows-Lets token rows s (ground (arith, e)) in
              (row, there m, lets)
        ]

    verify_token_in_db-Lets :
        (token : Text) (s : S)
        → (verify_token_in_db parse_hash verify_password db token s).1 ≡ ok true
        → (rows : List (Text × ℕ)) × (db.list_tokens s ≡ ok rows)
          × ((row : Text × ℕ) × In row rows × Lets token row)
    unfolding verify_token_in_db
    verify_token_in_db-Lets token s h = elim (Result-cases (db.list_tokens s)) [
      | inr (_, e) ↦ absurd (ground (arith, e))
      | inl (rows, e) ↦ (rows, e, verify_rows-Lets token rows s (ground (arith, e)))
    ]

    -- The request carries the token, and a row of the token list lets it in.
    pub record Authenticated (request : Request) (s : S) : Type 0 where
      pub token : Text
      pub header : request.authorization ≡ some (bearer ++ token)
      pub rows : List (Text × ℕ)
      pub listed : db.list_tokens s ≡ ok rows
      pub row : Text × ℕ
      pub row_listed : In row rows
      pub lets : Lets token row

    check_header-Authenticated :
        (request : Request) (s : S)
        → (check_header parse_hash verify_password db request.authorization s).1 ≡ ok tt
        → Authenticated request s
    unfolding check_header
    check_header-Authenticated request s h = elim (Option-cases request.authorization) [
      | inl e ↦ absurd (ground (arith, e))
      | inr (text, e) ↦ elim (Option-cases (strip_prefix bearer text)) [
        | inl f ↦ absurd (ground (arith, e, f))
        | inr (token, f) ↦
            let (rows, listed, (row, m, lets)) =
              verify_token_in_db-Lets token s (verified request.authorization text token e f h) in
            record {
              token = token;
              header = e ∙ ap some (strip_prefix-append bearer text token f);
              rows = rows;
              listed = listed;
              row = row;
              row_listed = m;
              lets = lets;
            }
      ]
    ]
      where
        verified :
            (o : Option Text) (text token : Text)
            → o ≡ some text
            → strip_prefix bearer text ≡ some token
            → (check_header parse_hash verify_password db o s).1 ≡ ok tt
            → (verify_token_in_db parse_hash verify_password db token s).1 ≡ ok true
        verified o text token e f h =
            elim (Result-cases (verify_token_in_db parse_hash verify_password db token s).1) [
              | inl (true, g) ↦ g
              | inl (false, g) ↦ absurd (ground (arith, e, f, g))
              | inr (_, g) ↦ absurd (ground (arith, e, f, g))
            ]

    -- A request runs on only if it came through the Unix socket, or carries a bearer token that
    -- verifies against the hash of a row that is enabled.
    pub auth_middleware-Authenticated :
        (request : Request) (s : S)
        → (auth_middleware parse_hash verify_password db request s).1 ≡ ok tt
        → (request.connection ≡ some unix_socket) ⊎ Authenticated request s
    unfolding auth_middleware
    auth_middleware-Authenticated request s h = elim (Option-cases request.connection) [
      | inl e ↦ inr (check_header-Authenticated request s (ground (arith, e)))
      | inr (unix_socket, e) ↦ inl e
      | inr (tcp, e) ↦ inr (check_header-Authenticated request s (ground (arith, e)))
    ]
