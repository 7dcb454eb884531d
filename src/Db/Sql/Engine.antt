-- ===== src/Db/Sql/Engine.antt =====
-- The engine under crates/ndhcpd/src/db/sqlite.rs, which is not part of the repository: SQLite by
-- way of sqlx, as operations on a state `S`, and what its documentation says of the statements that
-- the source runs.
use ndhcpd.Common.{
  ℕ, ◌≤◌, ◌≡◌, ◌≢◌, ◌↔◌, ◌⊎◌, true, false, Option, none, some, List, Result, ok, err, In,
  if◌then◌else◌,
}
use ndhcpd.Db.Interface.{DbError}
use ndhcpd.Db.Sql.{
  Table, Column, Row, integer, null, Expr, Condition, Statement, insert, update, delete, Select,
  descending, meets, assign, project, key_of, same_table,
}

-- `SqliteQueryResult`
pub record Done : Type 0 where
  pub rows_affected : ℕ
  pub last_insert_rowid : ℕ

pub record Engine (S : Type 0) : Type 0 where
  pub execute : Statement → S → S × Result DbError Done
  pub fetch_all : Select → S → Result DbError (List Row)
  pub fetch_optional : Select → S → Result DbError (Option Row)

pub record SqlLaws {S : Type 0} (engine : Engine S) : Type 0 where
  -- The rows of a table, in no particular order.
  pub rows : Table → S → List Row
  -- A statement that fails changes nothing.
  pub refused :
      (q : Statement) (s : S) (e : DbError)
      → (engine.execute q s).1 ≡ err e
      → (engine.execute q s).0 ≡ s
  -- A query lists the rows that meet its condition, cut to its columns.
  pub selected :
      (q : Select) (s : S) (rs : List Row) (r : Row)
      → engine.fetch_all q s ≡ ok rs
      → In r rs ↔ (
          (r' : Row) × In r' (rows q.table s)
          × (meets q.condition r' ≡ true)
          × (r ≡ project q.columns r'))
  -- The first row of a query is one of its rows, and there is none only if no row meets it.
  pub selected_some :
      (q : Select) (s : S) (r : Row)
      → engine.fetch_optional q s ≡ ok (some r)
      → (r' : Row) × In r' (rows q.table s)
        × (meets q.condition r' ≡ true)
        × (r ≡ project q.columns r')
  pub selected_none :
      (q : Select) (s : S) (r : Row)
      → engine.fetch_optional q s ≡ ok none
      → In r (rows q.table s)
      → meets q.condition r ≡ false
  -- `ORDER BY … DESC`: the first row has the greatest number in that column.
  pub ordered :
      (q : Select) (s : S) (c : Column) (r r' : Row) (n n' : ℕ)
      → q.order ≡ descending c
      → engine.fetch_optional q s ≡ ok (some r)
      → r c ≡ integer n
      → In r' (rows q.table s)
      → meets q.condition r' ≡ true
      → r' c ≡ integer n'
      → n' ≤ n
  -- A row that is inserted has its key, the listed values, and defaults in the other columns. For
  -- `last_used_at` the migrations give none, so it is NULL.
  pub inserted :
      (t : Table) (sets : List (Column × Expr)) (s : S) (d : Done)
      → (engine.execute (insert t sets) s).1 ≡ ok d
      → (now : ℕ) × (defaults : Row) × (defaults Column.last_used_at ≡ null)
        × ((r : Row)
            → In r (rows t (engine.execute (insert t sets) s).0)
              ↔ (In r (rows t s) ⊎ (r ≡ assign now (key_of t d.last_insert_rowid sets) defaults)))
  -- `AUTOINCREMENT`: the key is one that no row has.
  pub fresh :
      (t : Table) (sets : List (Column × Expr)) (s : S) (d : Done) (r : Row)
      → same_table t Table.static_ips ≡ false
      → (engine.execute (insert t sets) s).1 ≡ ok d
      → In r (rows t s)
      → r Column.id ≢ integer d.last_insert_rowid
  pub updated :
      (t : Table) (sets : List (Column × Expr)) (c : Condition) (s : S) (d : Done)
      → (engine.execute (update t sets c) s).1 ≡ ok d
      → (now : ℕ) × ((r : Row)
          → In r (rows t (engine.execute (update t sets c) s).0) ↔ (
              (r' : Row) × In r' (rows t s)
              × (r ≡ (if meets c r' then assign now sets r' else r'))))
  pub deleted :
      (t : Table) (c : Condition) (s : S) (d : Done) (r : Row)
      → (engine.execute (delete t c) s).1 ≡ ok d
      → In r (rows t (engine.execute (delete t c) s).0) ↔ (In r (rows t s) × (meets c r ≡ false))
  -- The other tables stay as they are, but for the rows that `ON DELETE CASCADE` takes.
  pub insert_elsewhere :
      (t u : Table) (sets : List (Column × Expr)) (s : S) (r : Row)
      → same_table t u ≡ false
      → In r (rows u (engine.execute (insert t sets) s).0) ↔ In r (rows u s)
  pub update_elsewhere :
      (t u : Table) (sets : List (Column × Expr)) (c : Condition) (s : S) (r : Row)
      → same_table t u ≡ false
      → In r (rows u (engine.execute (update t sets c) s).0) ↔ In r (rows u s)
  pub delete_elsewhere :
      (t u : Table) (c : Condition) (s : S) (r : Row)
      → In r (rows u (engine.execute (delete t c) s).0)
      → In r (rows u s)
