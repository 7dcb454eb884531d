-- ===== src/Db/Sqlite/TokenRows.antt =====
-- The rows of the token table as crates/ndhcpd/src/db/sqlite.rs writes and reads them.
use ndhcpd.Common.{
  ℕ, ◌≡◌, refl, ap, Bool, true, false, not, ◌==◌, Option, none, some, [], ◌∷◌, >>=-eq-some,
}
use ndhcpd.Bytes.{Text}
use ndhcpd.Models.{ApiToken}
use ndhcpd.Db.Sql.{Table, Column, Row, null, strftime_now, assign, key_of}
use ndhcpd.Db.Sqlite.Rows.{integer_of, text_of, optional_integer_of}
use ndhcpd.Db.Sqlite.Answers.{int, str, flag}
use ndhcpd.Db.Sqlite.Others.{token_of_row, api_token_of_row}

-- Both of the queries on tokens can read the row.
abbrev pub IsReadableToken : Row → Type 0
IsReadableToken r =
    ((x : Text × ℕ) × (token_of_row r ≡ some x)) × ((x : ApiToken) × (api_token_of_row r ≡ some x))

-- The values of the columns of a token that its queries read.
record TokenRow (r : Row) : Type 0 where
  hash : Text
  has_hash : text_of (r Column.token_hash) ≡ some hash
  i : ℕ
  has_id : integer_of (r Column.id) ≡ some i
  name : Text
  has_name : text_of (r Column.name) ≡ some name
  created : ℕ
  has_created : integer_of (r Column.created_at) ≡ some created
  used : Option ℕ
  has_used : optional_integer_of (r Column.last_used_at) ≡ some used
  enabled : ℕ
  has_enabled : integer_of (r Column.enabled) ≡ some enabled

TokenRow-IsReadableToken : (r : Row) → TokenRow r → IsReadableToken r
unfolding token_of_row api_token_of_row
TokenRow-IsReadableToken r t = (
  ((t.hash, t.enabled), rw (t.has_hash, t.has_enabled) refl),
  (
    record {
      id = some t.i;
      name = t.name;
      token_hash = none;
      salt = none;
      created_at = some t.created;
      last_used_at = t.used;
      enabled = not (t.enabled == 0);
      token = none;
    },
    rw (t.has_id, t.has_name, t.has_created, t.has_used, t.has_enabled) refl,
  ),
)

IsReadableToken-TokenRow : (r : Row) → IsReadableToken r → TokenRow r
unfolding token_of_row api_token_of_row
IsReadableToken-TokenRow r ((x, read), (y, read')) =
    let (hash, has_hash, _) = >>=-eq-some (text_of (r Column.token_hash)) _ x read in
    let (i, has_id, h) = >>=-eq-some (integer_of (r Column.id)) _ y read' in
    let (name, has_name, h) = >>=-eq-some (text_of (r Column.name)) _ y h in
    let (created, has_created, h) = >>=-eq-some (integer_of (r Column.created_at)) _ y h in
    let (used, has_used, h) = >>=-eq-some (optional_integer_of (r Column.last_used_at)) _ y h in
    let (enabled, has_enabled, _) = >>=-eq-some (integer_of (r Column.enabled)) _ y h in
    record {
      hash = hash;
      has_hash = has_hash;
      i = i;
      has_id = has_id;
      name = name;
      has_name = has_name;
      created = created;
      has_created = has_created;
      used = used;
      has_used = has_used;
      enabled = enabled;
      has_enabled = has_enabled;
    }

set_enabled :
    (b : Bool) (now : ℕ) (r : Row)
    → TokenRow r
    → TokenRow (assign now ((Column.enabled, flag b) ∷ []) r)
set_enabled true now r t = record {
  hash = t.hash;
  has_hash = t.has_hash;
  i = t.i;
  has_id = t.has_id;
  name = t.name;
  has_name = t.has_name;
  created = t.created;
  has_created = t.has_created;
  used = t.used;
  has_used = t.has_used;
  enabled = 1;
  has_enabled = refl;
}
set_enabled false now r t = record {
  hash = t.hash;
  has_hash = t.has_hash;
  i = t.i;
  has_id = t.has_id;
  name = t.name;
  has_name = t.has_name;
  created = t.created;
  has_created = t.has_created;
  used = t.used;
  has_used = t.has_used;
  enabled = 0;
  has_enabled = refl;
}

pub created_token :
    (name hash salt : Text) (now i : ℕ) (defaults : Row)
    → defaults Column.last_used_at ≡ null
    → IsReadableToken (
        assign now
          (key_of Table.api_tokens i (
            (Column.name, str name)
            ∷ (Column.token_hash, str hash)
            ∷ (Column.salt, str salt)
            ∷ (Column.created_at, strftime_now)
            ∷ (Column.enabled, int 1)
            ∷ []))
          defaults)
created_token name hash salt now i defaults blank = TokenRow-IsReadableToken _ (record {
  hash = hash;
  has_hash = refl;
  i = i;
  has_id = refl;
  name = name;
  has_name = refl;
  created = now;
  has_created = refl;
  used = none;
  has_used = ap optional_integer_of blank;
  enabled = 1;
  has_enabled = refl;
})

pub toggled :
    (b : Bool) (now : ℕ) (r : Row)
    → IsReadableToken r
    → IsReadableToken (assign now ((Column.enabled, flag b) ∷ []) r)
toggled b now r h = TokenRow-IsReadableToken _ (set_enabled b now r (IsReadableToken-TokenRow r h))

pub used :
    (now : ℕ) (r : Row)
    → IsReadableToken r
    → IsReadableToken (assign now ((Column.last_used_at, strftime_now) ∷ []) r)
used now r h =
    let t = IsReadableToken-TokenRow r h in
    TokenRow-IsReadableToken _ (record {
      hash = t.hash;
      has_hash = t.has_hash;
      i = t.i;
      has_id = t.has_id;
      name = t.name;
      has_name = t.has_name;
      created = t.created;
      has_created = t.has_created;
      used = some now;
      has_used = refl;
      enabled = t.enabled;
      has_enabled = t.has_enabled;
    })
