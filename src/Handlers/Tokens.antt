-- ===== src/Handlers/Tokens.antt =====
-- crates/ndhcpd/src/handlers/tokens.rs. The messages that go with an error status are left out.
use ndhcpd.Common.{ℕ, not, Option, none, some, List, Result, ok, err, find}
use ndhcpd.Bytes.{Text}
use ndhcpd.Models.{ApiToken}
use ndhcpd.Db.Interface.{Database, has_id}
use ndhcpd.Handlers.{
  StatusCode, status_ok, created, no_content, not_found, internal_server_error, or_internal,
  or_conflict, map_ok,
}

pub record CreateTokenResponse : Type 0 where
  pub id : ℕ
  pub name : Text
  pub token : Text

module _ {S : Type 0} (db : Database S) where
  unfoldable pub list_tokens : S → Result StatusCode (List ApiToken)
  list_tokens s = or_internal (db.list_api_tokens s)

  -- `token` is what `token::generate` drew, `hashed` what `token::hash` made of it: the hash and the
  -- salt, or nothing where hashing failed.
  unfoldable pub create_token :
      Text
      → Text
      → Option (Text × Text)
      → S
      → S × Result StatusCode (StatusCode × CreateTokenResponse)
  create_token name token none s = (s, err internal_server_error)
  create_token name token (some (token_hash, salt)) s =
      let (s', answer) = db.create_token name token_hash salt s in
      (
        s',
        map_ok (λ i. (created, record { id = i; name = name; token = token })) (or_conflict answer),
      )

  unfoldable pub delete_token : ℕ → S → S × Result StatusCode StatusCode
  delete_token i s =
      let (s', answer) = db.delete_token i s in (s', map_ok (λ _. no_content) (or_internal answer))

  unfoldable pub toggle_token : ℕ → S → S × Result StatusCode StatusCode
  toggle_token i s = elim (db.list_api_tokens s) [
    | err _ ↦ (s, err internal_server_error)
    | ok tokens ↦ elim (find (λ (t : ApiToken). has_id i t.id) tokens) [
      | none ↦ (s, err not_found)
      | some token ↦
          let (s', answer) = db.toggle_token i (not token.enabled) s in
          (s', map_ok (λ _. status_ok) (or_internal answer))
    ]
  ]
