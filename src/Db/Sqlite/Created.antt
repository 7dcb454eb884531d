-- ===== src/Db/Sqlite/Created.antt =====
-- A row that crates/ndhcpd/src/db/sqlite.rs creates is found under the id that it returns.
use ndhcpd.Common.{
  ℕ, ◌≡◌, refl, ap, ◌∙◌, true, false, Option, none, some, List, [], ◌∷◌, ok, Bool-cases, inl, inr,
  arith, ◌==◌, ==_iff,
}
use ndhcpd.Models.{Subnet, IaPrefix}
use ndhcpd.Models.Ipv6Servers.{Ipv6Text, IsIpv6Text}
use ndhcpd.Db.Sql.{
  Table, Column, Row, Value, null, integer, text, Expr, unordered, insert, update, value_eq,
  project, assign, key_of, same_table,
}
use ndhcpd.Db.Sql.Engine.{Done, Engine, SqlLaws}
use ndhcpd.Db.Sqlite.Rows.{optional_integer_of, subnet_of_row}
use ndhcpd.Db.Sqlite.Answers.{int, rowid, nothing, answer, answer-state, answer-eq-ok, first_row}
use ndhcpd.Models.Fits.{SubnetFits, PrefixFits}
use ndhcpd.Db.Sqlite.Written.{subnet_of_row-set, ia_prefix_of_row-set}
use ndhcpd.Db.Sqlite.Dhcp.{
  create_subnet, get_subnet, update_subnet, by_id, select_subnets, subnet_values,
}
use ndhcpd.Db.Sqlite.Others.{
  create_ia_prefix, get_ia_prefix, select_ia_prefixes, ia_prefix_of_row, ia_prefix_values,
}

value_eq-integer : (v : Value) (n : ℕ) → value_eq v (integer n) ≡ true → v ≡ integer n
value_eq-integer null n h = cc
value_eq-integer (text t) n h = cc
value_eq-integer (integer m) n h = ap integer ((==_iff m n).0 h)

subnet_of_row-project :
    (r : Row) → subnet_of_row (project (select_subnets (by_id 0)).columns r) ≡ subnet_of_row r
unfolding subnet_of_row
subnet_of_row-project r = refl

ia_prefix_of_row-project :
    (ipv6 : Ipv6Text) (r : Row)
    → ia_prefix_of_row ipv6 (project (select_ia_prefixes (by_id 0)).columns r)
      ≡ ia_prefix_of_row ipv6 r
unfolding ia_prefix_of_row
ia_prefix_of_row-project ipv6 r = refl

module _ {S : Type 0} (engine : Engine S) (laws : SqlLaws engine) where
  open laws use {rows}

  -- The row of an `INSERT` is the one that its key selects.
  inserted_found :
      {A : Type 0} (f : Row → Option A) (t : Table) (sets : List (Column × Expr))
      (columns : List Column) (s : S) (d : Done) (found : Option Row) (x : A)
      → same_table t Table.static_ips ≡ false
      → key_of t d.last_insert_rowid sets ≡ (Column.id, int d.last_insert_rowid) ∷ sets
      → ((r : Row) → f (project columns r) ≡ f r)
      → ((now : ℕ) (defaults : Row)
          → f (assign now ((Column.id, int d.last_insert_rowid) ∷ sets) defaults) ≡ some x)
      → (engine.execute (insert t sets) s).1 ≡ ok d
      → engine.fetch_optional
          (record {
            columns = columns;
            table = t;
            condition = by_id d.last_insert_rowid;
            order = unordered;
          })
          (engine.execute (insert t sets) s).0
        ≡ ok found
      → first_row f (ok found) ≡ ok (some x)
  inserted_found f t sets columns s d none x keyed key cut written done h =
      let (now, defaults, _, added) = laws.inserted t sets s d done in
      let new = assign now ((Column.id, int d.last_insert_rowid) ∷ sets) defaults in
      let missed = laws.selected_none _ _ new h ((added new).1 (inr (rw key refl))) in
      let same : (d.last_insert_rowid == d.last_insert_rowid) ≡ true = (==_iff _ _).1 refl in
      absurd (ground (arith, missed, same))
  inserted_found f t sets columns s d (some r) x keyed key cut written done h =
      let (now, defaults, _, added) = laws.inserted t sets s d done in
      let (r', m, met, e) = laws.selected_some _ _ r h in
      elim ((added r').0 m) [
        | inl old ↦
            absurd (laws.fresh t sets s d r' keyed done old (value_eq-integer (r' Column.id) _ met))
        | inr is_new ↦
            let read : f r ≡ some x =
              ap f e ∙ cut r' ∙ ap f (rw key at is_new) ∙ written now defaults in
            rw read refl
      ]

  -- A subnet within its types that is created in SQLite is found under the id that its creation
  -- answers, with every field as it was given, where the engine answers both statements and meets
  -- the laws of SQL.
  pub created_subnet_found :
      (x : Subnet) (s : S) (i : ℕ) (found : Option Row)
      → SubnetFits x
      → (create_subnet engine x s).1 ≡ ok i
      → engine.fetch_optional (select_subnets (by_id i)) (create_subnet engine x s).0 ≡ ok found
      → get_subnet engine i (create_subnet engine x s).0 ≡ ok (some (record x { id = some i }))
  unfolding create_subnet get_subnet subnet_of_row
  created_subnet_found x s i found fits h g =
      let y = engine.execute (insert Table.subnets (subnet_values x)) s in
      let (d, done, e) = answer-eq-ok rowid y i h in
      let at : (answer rowid y).0 ≡ y.0 = answer-state rowid y in
      let g' = rw at at (rw (← e) at g) in
      rw (← e) (
        rw (at, g')
          (inserted_found subnet_of_row Table.subnets (subnet_values x)
            (select_subnets (by_id i)).columns s d found
            (record x { id = some d.last_insert_rowid }) refl refl subnet_of_row-project
            (λ now defaults.
              subnet_of_row-set x now
                (assign now ((Column.id, int d.last_insert_rowid) ∷ []) defaults)
                (some d.last_insert_rowid) fits refl)
            done g'))

  -- An IPv6 prefix that is created is found in the same way.
  pub created_ia_prefix_found :
      (ipv6 : Ipv6Text) (ipv6_laws : IsIpv6Text ipv6) (x : IaPrefix) (s : S) (i : ℕ)
      (found : Option Row)
      → PrefixFits x
      → (create_ia_prefix ipv6 engine x s).1 ≡ ok i
      → engine.fetch_optional (select_ia_prefixes (by_id i)) (create_ia_prefix ipv6 engine x s).0
        ≡ ok found
      → get_ia_prefix ipv6 engine i (create_ia_prefix ipv6 engine x s).0
        ≡ ok (some (record x { id = some i }))
  unfolding create_ia_prefix get_ia_prefix ia_prefix_of_row
  created_ia_prefix_found ipv6 ipv6_laws x s i found fits h g =
      let y = engine.execute (insert Table.ia_prefixes (ia_prefix_values ipv6 x)) s in
      let (d, done, e) = answer-eq-ok rowid y i h in
      let at : (answer rowid y).0 ≡ y.0 = answer-state rowid y in
      let g' = rw at at (rw (← e) at g) in
      rw (← e) (
        rw (at, g')
          (inserted_found (ia_prefix_of_row ipv6) Table.ia_prefixes (ia_prefix_values ipv6 x)
            (select_ia_prefixes (by_id i)).columns s d found
            (record x { id = some d.last_insert_rowid }) refl refl (ia_prefix_of_row-project ipv6)
            (λ now defaults.
              ia_prefix_of_row-set ipv6 ipv6_laws x now
                (assign now ((Column.id, int d.last_insert_rowid) ∷ []) defaults)
                (some d.last_insert_rowid) fits refl)
            done g'))

  -- The row that an `UPDATE` by id selects is the updated one.
  pub updated_subnet_found :
      (x : Subnet) (s : S) (i : ℕ) (r : Row) (done : Unit {0})
      → SubnetFits x
      → (update_subnet engine i x s).1 ≡ ok done
      → engine.fetch_optional (select_subnets (by_id i)) (update_subnet engine i x s).0
        ≡ ok (some r)
      → get_subnet engine i (update_subnet engine i x s).0 ≡ ok (some (record x { id = some i }))
  unfolding update_subnet get_subnet
  updated_subnet_found x s i r done fits h g =
      let y = engine.execute (update Table.subnets (subnet_values x) (by_id i)) s in
      let (d, ran, _) = answer-eq-ok nothing y done h in
      let at : (answer nothing y).0 ≡ y.0 = answer-state nothing y in
      let g' = rw at at g in
      let (now, changed) = laws.updated Table.subnets (subnet_values x) (by_id i) s d ran in
      let (r', m, met, cut) = laws.selected_some (select_subnets (by_id i)) y.0 r g' in
      let (r0, m0, e) = (changed r').0 m in
      elim (Bool-cases (value_eq (r0 Column.id) (integer i))) [
        | inr other ↦
            let same : r' ≡ r0 = rw other at e in absurd (ground (arith, rw same at met, other))
        | inl hit ↦
            let same : r' ≡ assign now (subnet_values x) r0 = rw hit at e in
            let id_read : optional_integer_of (r0 Column.id) ≡ some (some i) =
              ap optional_integer_of (value_eq-integer (r0 Column.id) i hit) in
            let read : subnet_of_row r ≡ some (record x { id = some i }) =
              ap subnet_of_row cut
              ∙ subnet_of_row-project r'
              ∙ ap subnet_of_row same
              ∙ subnet_of_row-set x now r0 (some i) fits id_read in
            rw (at, g', read) refl
      ]
