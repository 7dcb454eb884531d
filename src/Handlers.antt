-- ===== src/Handlers.antt =====
-- crates/ndhcpd/src/handlers: the REST API over a `Database`. A handler takes the state to the new
-- state and its response, a status with a body or the status of an error. JSON is not modelled.
mod Tests
pub mod Subnets
pub mod Others
pub mod Tokens
pub mod Routes
use ndhcpd.Common.{Result, ok, err, Option, none, some}
use ndhcpd.Db.Interface.{DbError, unique_violation, other}

-- The statuses that the handlers answer with.
pub data StatusCode : Type 0 where
  status_ok created no_content unauthorized not_found conflict internal_server_error : StatusCode

-- `.map_err(|e| { error!(…); StatusCode::INTERNAL_SERVER_ERROR })`
abbrev pub or_internal {ℓ} : {A : Type ℓ} → Result DbError A → Result StatusCode A
or_internal (ok a) = ok a
or_internal (err e) = err internal_server_error

-- The same, with CONFLICT where `is_unique_violation` holds.
abbrev pub or_conflict {ℓ} : {A : Type ℓ} → Result DbError A → Result StatusCode A
or_conflict (ok a) = ok a
or_conflict (err unique_violation) = err conflict
or_conflict (err other) = err internal_server_error

-- `.map(f)` on a result.
abbrev pub map_ok {ℓ} : {E : Type 0} {A B : Type ℓ} → (A → B) → Result E A → Result E B
map_ok f (ok a) = ok (f a)
map_ok f (err e) = err e

-- `.ok_or(StatusCode::NOT_FOUND)` on the row that was found.
abbrev pub or_not_found {ℓ} : {A : Type ℓ} → Result StatusCode (Option A) → Result StatusCode A
or_not_found (ok (some a)) = ok a
or_not_found (ok none) = err not_found
or_not_found (err e) = err e
