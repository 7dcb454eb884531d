-- ===== src/Db/Sqlite/Others.antt =====
-- The operations of crates/ndhcpd/src/db/sqlite.rs on IPv6 prefixes and API tokens.
use ndhcpd.Common.{ℕ, ◌%◌, ◌^◌, Bool, not, Option, none, some, List, [], ◌∷◌, ◌==◌, ◌>>=◌}
use ndhcpd.Bytes.{Text}
use ndhcpd.Models.{IaPrefix, ApiToken}
use ndhcpd.Models.Ipv6Servers.{Ipv6Text, dns_servers_to_string, dns_servers_from_string}
use ndhcpd.Db.Interface.{Query, Update}
use ndhcpd.Db.Sql.{
  Table, Column, Row, integer, text, Expr, strftime_now, Condition, always, equals, insert, update,
  delete, Select, unordered, descending,
}
use ndhcpd.Db.Sql.Engine.{Engine}
use ndhcpd.Db.Sqlite.Rows.{integer_of, text_of, optional_integer_of}
use ndhcpd.Db.Sqlite.Answers.{int, str, flag, answer, nothing, rowid, all_rows, first_row}
use ndhcpd.Db.Sqlite.Dhcp.{by_id}

module _ (ipv6 : Ipv6Text) where
  unfoldable pub ia_prefix_of_row : Row → Option IaPrefix
  ia_prefix_of_row r = do
    id ← optional_integer_of (r Column.id)
    interface ← text_of (r Column.interface)
    prefix ← (text_of (r Column.prefix) >>= ipv6.from_string)
    prefix_len ← integer_of (r Column.prefix_len)
    preferred_lifetime ← integer_of (r Column.preferred_lifetime)
    valid_lifetime ← integer_of (r Column.valid_lifetime)
    servers ← text_of (r Column.dns_servers)
    dns_lifetime ← integer_of (r Column.dns_lifetime)
    some (record {
      id = id;
      interface = interface;
      prefix = prefix;
      prefix_len = prefix_len % 256;
      preferred_lifetime = preferred_lifetime % 2 ^ 32;
      valid_lifetime = valid_lifetime % 2 ^ 32;
      dns_servers = dns_servers_from_string ipv6 servers;
      dns_lifetime = dns_lifetime % 2 ^ 32;
    })

  abbrev pub ia_prefix_values : IaPrefix → List (Column × Expr)
  ia_prefix_values prefix =
      (Column.interface, str prefix.interface)
      ∷ (Column.prefix, str (ipv6.to_string prefix.prefix))
      ∷ (Column.prefix_len, int prefix.prefix_len)
      ∷ (Column.preferred_lifetime, int prefix.preferred_lifetime)
      ∷ (Column.valid_lifetime, int prefix.valid_lifetime)
      ∷ (Column.dns_servers, str (dns_servers_to_string ipv6 prefix.dns_servers))
      ∷ (Column.dns_lifetime, int prefix.dns_lifetime)
      ∷ []

abbrev pub select_ia_prefixes : Condition → Select
select_ia_prefixes condition = record {
  columns =
      Column.id ∷ Column.interface ∷ Column.prefix ∷ Column.prefix_len ∷ Column.preferred_lifetime
      ∷ Column.valid_lifetime ∷ Column.dns_servers ∷ Column.dns_lifetime ∷ [];
  table = Table.ia_prefixes;
  condition = condition;
  order = unordered;
}

-- `if let Some(interface) = interface { "… WHERE interface = ?" } else { … }`
abbrev pub on_interface : Option Text → Condition
on_interface none = always
on_interface (some interface) = equals Column.interface (text interface)

module _ (ipv6 : Ipv6Text) {S : Type 0} (engine : Engine S) where
  unfoldable pub create_ia_prefix : IaPrefix → Update S ℕ
  create_ia_prefix prefix s =
      answer rowid (engine.execute (insert Table.ia_prefixes (ia_prefix_values ipv6 prefix)) s)

  unfoldable pub get_ia_prefix : ℕ → Query S (Option IaPrefix)
  get_ia_prefix i s =
      first_row (ia_prefix_of_row ipv6) (engine.fetch_optional (select_ia_prefixes (by_id i)) s)

  unfoldable pub list_ia_prefixes : Option Text → Query S (List IaPrefix)
  list_ia_prefixes interface s =
      all_rows (ia_prefix_of_row ipv6)
        (engine.fetch_all (select_ia_prefixes (on_interface interface)) s)

  unfoldable pub update_ia_prefix : ℕ → IaPrefix → Update S (Unit {0})
  update_ia_prefix i prefix s =
      answer nothing
        (engine.execute (update Table.ia_prefixes (ia_prefix_values ipv6 prefix) (by_id i)) s)

  unfoldable pub delete_ia_prefix : ℕ → Update S (Unit {0})
  delete_ia_prefix i s = answer nothing (engine.execute (delete Table.ia_prefixes (by_id i)) s)

-- `query_as::<_, (String, i64)>`: a row that does not fit is an error.
unfoldable pub token_of_row : Row → Option (Text × ℕ)
token_of_row r = do
  token_hash ← text_of (r Column.token_hash)
  enabled ← integer_of (r Column.enabled)
  some (token_hash, enabled)

-- `query_as::<_, (i64, String, i64, Option<i64>, bool)>`
unfoldable pub api_token_of_row : Row → Option ApiToken
api_token_of_row r = do
  id ← integer_of (r Column.id)
  name ← text_of (r Column.name)
  created_at ← integer_of (r Column.created_at)
  last_used_at ← optional_integer_of (r Column.last_used_at)
  enabled ← integer_of (r Column.enabled)
  some (record {
    id = some id;
    name = name;
    token_hash = none;
    salt = none;
    created_at = some created_at;
    last_used_at = last_used_at;
    enabled = not (enabled == 0);
    token = none;
  })

abbrev pub select_tokens : Select
select_tokens = record {
  columns = Column.token_hash ∷ Column.enabled ∷ [];
  table = Table.api_tokens;
  condition = equals Column.enabled (integer 1);
  order = unordered;
}

abbrev pub select_api_tokens : Select
select_api_tokens = record {
  columns = Column.id ∷ Column.name ∷ Column.created_at ∷ Column.last_used_at ∷ Column.enabled ∷ [];
  table = Table.api_tokens;
  condition = always;
  order = descending Column.created_at;
}

module _ {S : Type 0} (engine : Engine S) where
  unfoldable pub list_tokens : Query S (List (Text × ℕ))
  list_tokens s = all_rows token_of_row (engine.fetch_all select_tokens s)

  unfoldable pub list_api_tokens : Query S (List ApiToken)
  list_api_tokens s = all_rows api_token_of_row (engine.fetch_all select_api_tokens s)

  unfoldable pub create_token : Text → Text → Text → Update S ℕ
  create_token name token_hash salt s = answer rowid (
      engine.execute
        (insert Table.api_tokens (
          (Column.name, str name)
          ∷ (Column.token_hash, str token_hash)
          ∷ (Column.salt, str salt)
          ∷ (Column.created_at, strftime_now)
          ∷ (Column.enabled, int 1)
          ∷ []))
        s)

  unfoldable pub delete_token : ℕ → Update S (Unit {0})
  delete_token i s = answer nothing (engine.execute (delete Table.api_tokens (by_id i)) s)

  unfoldable pub toggle_token : ℕ → Bool → Update S (Unit {0})
  toggle_token i enabled s =
      answer nothing
        (engine.execute (update Table.api_tokens ((Column.enabled, flag enabled) ∷ []) (by_id i)) s)

  unfoldable pub update_token_last_used : Text → Update S (Unit {0})
  update_token_last_used token_hash s = answer nothing (
      engine.execute
        (update Table.api_tokens ((Column.last_used_at, strftime_now) ∷ [])
          (equals Column.token_hash (text token_hash)))
        s)
