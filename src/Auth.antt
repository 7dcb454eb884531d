-- ===== src/Auth.antt =====
-- crates/ndhcpd/src/auth/mod.rs and token.rs: which requests reach the API. Argon2 is a parameter:
-- `parse_hash` reads a stored hash (`PasswordHash::new`), `verify_password` compares a token with it.
mod Tests
pub mod Laws
pub mod Revoked
pub mod Unchanged
use ndhcpd.Common.{
  ℕ, Bool, true, false, Option, none, some, List, [], ◌∷◌, Result, ok, err, ◌==◌, if◌then◌else◌,
}
use ndhcpd.Bytes.{Text}
use ndhcpd.Db.Interface.{Database, DbError}

pub data ConnectionType : Type 0 where
  unix_socket tcp : ConnectionType

-- What the middleware reads of a request: the connection's type, if the router set one, and the
-- Authorization header, if it is there and is text.
pub record Request : Type 0 where
  pub connection : Option ConnectionType
  pub authorization : Option Text

-- The refusals, by their messages; each goes with the status UNAUTHORIZED.
pub data Refusal : Type 0 where
  missing_header invalid_format invalid_token invalid_or_disabled : Refusal

-- `strip_prefix`
unfoldable pub strip_prefix : Text → Text → Option Text
strip_prefix [] text = some text
strip_prefix (p ∷ ps) [] = none
strip_prefix (p ∷ ps) (c ∷ cs) = if p == c then strip_prefix ps cs else none

abbrev pub starts_with : Text → Text → Bool
starts_with prefix text = elim (strip_prefix prefix text) [ none ↦ false | some rest ↦ true ]

abbrev pub bearer : Text
bearer = b'B' ∷ b'e' ∷ b'a' ∷ b'r' ∷ b'e' ∷ b'r' ∷ b' ' ∷ []

-- The errors of `verify_token_in_db`.
pub data VerifyError : Type 0 where
  database : DbError → VerifyError
  bad_hash : VerifyError

module _ {PasswordHash : Type 0} (parse_hash : Text → Option PasswordHash)
    (verify_password : Text → PasswordHash → Bool) where
  -- `token::verify`
  unfoldable pub verify : Text → Text → Result VerifyError Bool
  verify token hash = elim (parse_hash hash) [
    | none ↦ err bad_hash
    | some parsed ↦ ok (verify_password token parsed)
  ]

  module _ {S : Type 0} (db : Database S) where
    -- The loop over the enabled tokens. An error of `update_token_last_used` is ignored.
    unfoldable pub verify_rows : Text → List (Text × ℕ) → S → S × Result VerifyError Bool
    verify_rows token [] s = (s, ok false)
    verify_rows token ((token_hash, enabled) ∷ rows) s =
        let rest = verify_rows token rows s in
        elim (verify token token_hash) [
          | err e ↦ (s, err e)
          | ok true ↦ ((db.update_token_last_used token_hash s).0, ok (enabled == 1))
          | ok false ↦ rest
        ]

    unfoldable pub verify_token_in_db : Text → S → S × Result VerifyError Bool
    verify_token_in_db token s = elim (db.list_tokens s) [
      | err e ↦ (s, err (database e))
      | ok rows ↦ verify_rows token rows s
    ]

    unfoldable pub check_header : Option Text → S → S × Result Refusal (Unit {0})
    check_header none s = (s, err missing_header)
    check_header (some auth_header) s = elim (strip_prefix bearer auth_header) [
      | none ↦ (s, err invalid_format)
      | some token ↦
          let (s', answer) = verify_token_in_db token s in
          (
            s',
            elim answer [
              | err _ ↦ err invalid_token
              | ok true ↦ ok tt
              | ok false ↦ err invalid_or_disabled
            ],
          )
    ]

    -- `ok` where the request runs on.
    unfoldable pub auth_middleware : Request → S → S × Result Refusal (Unit {0})
    auth_middleware request s = elim request.connection [
      | some unix_socket ↦ (s, ok tt)
      | some tcp ↦ check_header request.authorization s
      | none ↦ check_header request.authorization s
    ]
