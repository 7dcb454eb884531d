-- ===== src/Auth/Tests.antt =====
-- Runs of the middleware of crates/ndhcpd/src/auth/mod.rs over a small token table.
use ndhcpd.Common.{◌≡◌, ◌⊎◌, refl, inr, Bool, Option, none, some, [], ◌∷◌, ◌++◌, ok}
use ndhcpd.Bytes.{Text, text_eq}
use ndhcpd.Db.Memory
use ndhcpd.Db.Memory.{InMemoryDatabase, Token, memory}
use ndhcpd.Db.Memory.Calls.{WellFormed, create_token, apply, new-WellFormed, apply-WellFormed}
use ndhcpd.Auth.{
  Request, unix_socket, tcp, strip_prefix, bearer, verify, verify_rows, verify_token_in_db,
  check_header, auth_middleware,
}
use ndhcpd.Auth.Laws.{Authenticated, auth_middleware-Authenticated}
use ndhcpd.Auth.Revoked.{ByAnother, revoked}

-- A hash that keeps the password, in place of Argon2.
abbrev parse_hash : Text → Option Text
parse_hash hash = some hash

abbrev verify_password : Text → Text → Bool
verify_password token hash = text_eq token hash

abbrev secret : Text
secret = b's' ∷ b'1' ∷ []

abbrev other_secret : Text
other_secret = b's' ∷ b'2' ∷ []

-- Two tokens, with the ids 1 and 2.
abbrev two_tokens : InMemoryDatabase
two_tokens =
    (Memory.create_token [] other_secret [] (Memory.create_token [] secret [] Memory.new).0).0

two_tokens-WellFormed : WellFormed two_tokens
unfolding apply
two_tokens-WellFormed =
    apply-WellFormed (create_token [] other_secret []) _
      (apply-WellFormed (create_token [] secret []) _ new-WellFormed)

abbrev with_secret : Request
with_secret = record { connection = some tcp; authorization = some (bearer ++ other_secret) }

abbrev no_header : Request
no_header = record { connection = none; authorization = none }

admitted : (auth_middleware parse_hash verify_password memory with_secret two_tokens).1 ≡ ok tt
unfolding auth_middleware check_header strip_prefix verify_token_in_db verify_rows verify text_eq
    Memory.create_token Memory.list_tokens
admitted = refl

admitted_later :
    (auth_middleware parse_hash verify_password memory with_secret
      (Memory.delete_token 1 two_tokens).0).1
    ≡ ok tt
unfolding auth_middleware check_header strip_prefix verify_token_in_db verify_rows verify text_eq
    Memory.create_token Memory.list_tokens Memory.delete_token
admitted_later = refl

auth_middleware-Authenticated_example :
    (with_secret.connection ≡ some unix_socket)
    ⊎ Authenticated parse_hash verify_password memory with_secret two_tokens
auth_middleware-Authenticated_example =
    auth_middleware-Authenticated parse_hash verify_password memory with_secret two_tokens admitted

revoked_example :
    (with_secret.connection ≡ some unix_socket)
    ⊎ ByAnother parse_hash verify_password with_secret 1 two_tokens
revoked_example =
    revoked parse_hash verify_password with_secret 1 two_tokens (Memory.delete_token 1 two_tokens).0
      two_tokens-WellFormed (inr refl) admitted_later
