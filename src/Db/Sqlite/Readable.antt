-- ===== src/Db/Sqlite/Readable.antt =====
-- crates/ndhcpd/src/db/sqlite.rs panics on a row that it cannot read. Whatever it writes itself, it
-- can read.
use ndhcpd.Common.{
  ℕ, ◌≡◌, refl, sym, subst, Option, some, List, [], ◌∷◌, Result, In, inl, inr, Bool-cases,
  Result-cases, >>=-eq-some,
}
use ndhcpd.Models.{Subnet, DynamicRange, StaticIp, Lease, IaPrefix}
use ndhcpd.Models.Ipv6Servers.{Ipv6Text, IsIpv6Text}
use ndhcpd.Db.Interface.{DbError}
use ndhcpd.Db.Calls
use ndhcpd.Db.Calls.{Call, Fits, apply_to}
use ndhcpd.Db.Sql.{
  Table, Column, Row, null, Expr, Condition, insert, update, delete, meets, assign, key_of,
  same_table, same_table-eq,
}
use ndhcpd.Db.Sql.Engine.{Done, Engine, SqlLaws}
use ndhcpd.Db.Sqlite.{sqlite}
use ndhcpd.Db.Sqlite.Rows.{
  optional_integer_of, subnet_of_row, range_of_row, static_ip_of_row, lease_of_row,
}
use ndhcpd.Db.Sqlite.Answers.{answer, answer-state, int}
use ndhcpd.Db.Sqlite.LeaseRows.{lease_of_row-inserted}
use ndhcpd.Models.Fits.{SubnetFits, PrefixFits}
use ndhcpd.Db.Sqlite.Written.{
  subnet_of_row-set, range_of_row-set, static_ip_of_row-set, static_ip_of_row-renamed,
  ia_prefix_of_row-set,
}
use ndhcpd.Db.Sqlite.TokenRows.{IsReadableToken, created_token, toggled, used}
use ndhcpd.Db.Sqlite.Dhcp
use ndhcpd.Db.Sqlite.Dhcp.{by_id, subnet_values, range_values, static_ip_values, lease_values}
use ndhcpd.Db.Sqlite.Others
use ndhcpd.Db.Sqlite.Others.{ia_prefix_of_row, ia_prefix_values}

-- The row can be read as a row of its table, a token by both of its queries.
abbrev pub IsReadable : Ipv6Text → Table → Row → Type 0
IsReadable ipv6 Table.subnets r = (x : Subnet) × (subnet_of_row r ≡ some x)
IsReadable ipv6 Table.dynamic_ranges r = (x : DynamicRange) × (range_of_row r ≡ some x)
IsReadable ipv6 Table.static_ips r = (x : StaticIp) × (static_ip_of_row r ≡ some x)
IsReadable ipv6 Table.leases r = (x : Lease) × (lease_of_row r ≡ some x)
IsReadable ipv6 Table.ia_prefixes r = (x : IaPrefix) × (ia_prefix_of_row ipv6 r ≡ some x)
IsReadable ipv6 Table.api_tokens r = IsReadableToken r

subnet_id_read :
    (r : Row) (x : Subnet)
    → subnet_of_row r ≡ some x
    → (i : Option ℕ) × (optional_integer_of (r Column.id) ≡ some i)
unfolding subnet_of_row
subnet_id_read r x h =
    let (i, e, _) = >>=-eq-some (optional_integer_of (r Column.id)) _ x h in (i, e)

prefix_id_read :
    (ipv6 : Ipv6Text) (r : Row) (x : IaPrefix)
    → ia_prefix_of_row ipv6 r ≡ some x
    → (i : Option ℕ) × (optional_integer_of (r Column.id) ≡ some i)
unfolding ia_prefix_of_row
prefix_id_read ipv6 r x h =
    let (i, e, _) = >>=-eq-some (optional_integer_of (r Column.id)) _ x h in (i, e)

module _ {S : Type 0} (engine : Engine S) (laws : SqlLaws engine) (ipv6 : Ipv6Text) where
  open laws use {rows}

  -- Every row of every table can be read.
  abbrev pub AllReadable : S → Type 0
  AllReadable s = (t : Table) (r : Row) → In r (rows t s) → IsReadable ipv6 t r

  insert-AllReadable :
      (t : Table) (sets : List (Column × Expr)) (s : S)
      → ((now i : ℕ) (defaults : Row)
          → defaults Column.last_used_at ≡ null
          → IsReadable ipv6 t (assign now (key_of t i sets) defaults))
      → AllReadable s
      → AllReadable (engine.execute (insert t sets) s).0
  insert-AllReadable t sets s new all u r m =
      elim (Result-cases (engine.execute (insert t sets) s).1) [
        | inr (e, failed) ↦
            all u r (subst (λ z. In r (rows u z)) (laws.refused (insert t sets) s e failed) m)
        | inl (d, done) ↦ elim (Bool-cases (same_table t u)) [
          | inr other ↦ all u r ((laws.insert_elsewhere t u sets s r other).0 m)
          | inl same ↦
              let e = same_table-eq t u same in
              let (now, defaults, blank, added) = laws.inserted t sets s d done in
              let m' : In r (rows t (engine.execute (insert t sets) s).0) = rw (← e) at m in
              subst (λ z. IsReadable ipv6 z r) e
                (elim ((added r).0 m') [
                  | inl old ↦ all t r old
                  | inr is_new ↦
                      subst (IsReadable ipv6 t) (sym is_new)
                        (new now d.last_insert_rowid defaults blank)
                ])
        ]
      ]

  update-AllReadable :
      (t : Table) (sets : List (Column × Expr)) (c : Condition) (s : S)
      → ((now : ℕ) (r : Row) → IsReadable ipv6 t r → IsReadable ipv6 t (assign now sets r))
      → AllReadable s
      → AllReadable (engine.execute (update t sets c) s).0
  update-AllReadable t sets c s set all u r m =
      elim (Result-cases (engine.execute (update t sets c) s).1) [
        | inr (e, failed) ↦
            all u r (subst (λ z. In r (rows u z)) (laws.refused (update t sets c) s e failed) m)
        | inl (d, done) ↦ elim (Bool-cases (same_table t u)) [
          | inr other ↦ all u r ((laws.update_elsewhere t u sets c s r other).0 m)
          | inl same ↦
              let e = same_table-eq t u same in
              let (now, changed) = laws.updated t sets c s d done in
              let m' : In r (rows t (engine.execute (update t sets c) s).0) = rw (← e) at m in
              let (r', k, g) = (changed r).0 m' in
              subst (λ z. IsReadable ipv6 z r) e
                (subst (IsReadable ipv6 t) (sym g) (elim (Bool-cases (meets c r')) [
                  | inl hit ↦ rw hit (set now r' (all t r' k))
                  | inr out ↦ rw out (all t r' k)
                ]))
        ]
      ]

  delete-AllReadable :
      (t : Table) (c : Condition) (s : S)
      → AllReadable s
      → AllReadable (engine.execute (delete t c) s).0
  delete-AllReadable t c s all u r m = all u r (laws.delete_elsewhere t u c s r m)

  answer-AllReadable :
      {A : Type 0} (f : Done → A) (x : S × Result DbError Done)
      → AllReadable x.0
      → AllReadable (answer f x).0
  answer-AllReadable f x = subst AllReadable (sym (answer-state f x))

  set_subnet :
      (x : Subnet) (now : ℕ) (r : Row)
      → SubnetFits x
      → IsReadable ipv6 Table.subnets r
      → IsReadable ipv6 Table.subnets (assign now (subnet_values x) r)
  set_subnet x now r fits (y, read) =
      let (i, e) = subnet_id_read r y read in
      (record x { id = i }, subnet_of_row-set x now r i fits e)

  set_ia_prefix :
      (ipv6_laws : IsIpv6Text ipv6) (x : IaPrefix) (now : ℕ) (r : Row)
      → PrefixFits x
      → IsReadable ipv6 Table.ia_prefixes r
      → IsReadable ipv6 Table.ia_prefixes (assign now (ia_prefix_values ipv6 x) r)
  set_ia_prefix ipv6_laws x now r fits (y, read) =
      let (i, e) = prefix_id_read ipv6 r y read in
      (record x { id = i }, ia_prefix_of_row-set ipv6 ipv6_laws x now r i fits e)

  -- Every call that changes the database in SQLite, with values within their types, keeps every row
  -- of every table one that the queries can read. The engine meets the laws of SQL, and an IPv6
  -- address is read back from its text.
  pub apply_to-AllReadable :
      (ipv6_laws : IsIpv6Text ipv6) (c : Call) (s : S)
      → Fits c
      → AllReadable s
      → AllReadable (apply_to (sqlite ipv6 engine) c s)
  unfolding apply_to Dhcp.create_subnet Dhcp.update_subnet Dhcp.delete_subnet Dhcp.create_range
      Dhcp.delete_range Dhcp.create_static_ip Dhcp.update_static_ip_hostname Dhcp.delete_static_ip
      Dhcp.create_lease Dhcp.expire_lease Dhcp.delete_expired_leases Others.create_ia_prefix
      Others.update_ia_prefix Others.delete_ia_prefix Others.create_token Others.delete_token
      Others.toggle_token Others.update_token_last_used subnet_of_row range_of_row static_ip_of_row
      ia_prefix_of_row
  apply_to-AllReadable l (Calls.create_subnet x) s fits all = answer-AllReadable _ _ (
      insert-AllReadable _ _ s
        (λ now i defaults blank. (
          record x { id = some i },
          subnet_of_row-set x now (assign now ((Column.id, int i) ∷ []) defaults) (some i) fits
              refl,
        ))
        all)
  apply_to-AllReadable l (Calls.update_subnet i x) s fits all =
      answer-AllReadable _ _ (update-AllReadable _ _ _ s (λ now r. set_subnet x now r fits) all)
  apply_to-AllReadable l (Calls.delete_subnet i) s fits all =
      answer-AllReadable _ _ (delete-AllReadable _ _ s all)
  apply_to-AllReadable l (Calls.create_range x) s fits all = answer-AllReadable _ _ (
      insert-AllReadable _ _ s
        (λ now i defaults blank. (
          record x { id = some i },
          range_of_row-set x now (assign now ((Column.id, int i) ∷ []) defaults) (some i) fits refl,
        ))
        all)
  apply_to-AllReadable l (Calls.delete_range i) s fits all =
      answer-AllReadable _ _ (delete-AllReadable _ _ s all)
  apply_to-AllReadable l (Calls.create_static_ip x) s fits all = answer-AllReadable _ _ (
      insert-AllReadable _ _ s
        (λ now i defaults blank. (x, static_ip_of_row-set x now defaults fits)) all)
  apply_to-AllReadable l (Calls.update_static_ip_hostname ip h) s fits all =
      answer-AllReadable _ _ (
        update-AllReadable _ _ _ s
          (λ now r (x, read). (record x { hostname = h }, static_ip_of_row-renamed x h now r read))
          all)
  apply_to-AllReadable l (Calls.delete_static_ip ip) s fits all =
      answer-AllReadable _ _ (delete-AllReadable _ _ s all)
  apply_to-AllReadable l (Calls.create_lease x) s fits all = answer-AllReadable _ _ (
      insert-AllReadable _ _ s
        (λ now i defaults blank.
          (record x { id = some i }, lease_of_row-inserted x now i defaults fits))
        all)
  apply_to-AllReadable l (Calls.expire_lease i) s fits all =
      answer-AllReadable _ _ (delete-AllReadable _ _ s all)
  apply_to-AllReadable l (Calls.delete_expired_leases now) s fits all =
      answer-AllReadable _ _ (delete-AllReadable _ _ s all)
  apply_to-AllReadable l (Calls.create_ia_prefix x) s fits all = answer-AllReadable _ _ (
      insert-AllReadable _ _ s
        (λ now i defaults blank. (
          record x { id = some i },
          ia_prefix_of_row-set ipv6 l x now (assign now ((Column.id, int i) ∷ []) defaults) (some i)
              fits refl,
        ))
        all)
  apply_to-AllReadable l (Calls.update_ia_prefix i x) s fits all =
      answer-AllReadable _ _
        (update-AllReadable _ _ _ s (λ now r. set_ia_prefix l x now r fits) all)
  apply_to-AllReadable l (Calls.delete_ia_prefix i) s fits all =
      answer-AllReadable _ _ (delete-AllReadable _ _ s all)
  apply_to-AllReadable l (Calls.create_token n h salt) s fits all = answer-AllReadable _ _ (
      insert-AllReadable _ _ s (λ now i defaults blank. created_token n h salt now i defaults blank)
        all)
  apply_to-AllReadable l (Calls.delete_token i) s fits all =
      answer-AllReadable _ _ (delete-AllReadable _ _ s all)
  apply_to-AllReadable l (Calls.toggle_token i b) s fits all =
      answer-AllReadable _ _ (update-AllReadable _ _ _ s (toggled b) all)
  apply_to-AllReadable l (Calls.update_token_last_used t) s fits all =
      answer-AllReadable _ _ (update-AllReadable _ _ _ s used all)
