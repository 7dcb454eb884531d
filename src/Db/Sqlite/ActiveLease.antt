-- ===== src/Db/Sqlite/ActiveLease.antt =====
-- `get_active_lease` of crates/ndhcpd/src/db/sqlite.rs: the lease that ends last.
use ndhcpd.Common.{
  ℕ, ◌≤◌, ◌≡◌, refl, sym, ap, ◌∙◌, true, ◌&&◌, Option, none, some, List, ok, In, arith,
}
use ndhcpd.Bytes.{Text}
use ndhcpd.Models.{Lease}
use ndhcpd.Db.Interface.{is_active}
use ndhcpd.Db.Memory.{same_mac}
use ndhcpd.Db.Sql.{Table, Column, Row, meets}
use ndhcpd.Db.Sql.Engine.{Engine, SqlLaws}
use ndhcpd.Db.Sqlite.Rows.{lease_of_row}
use ndhcpd.Db.Sqlite.Reading.{In-values_of, values_of-In, first_row-eq-some, first_row-eq-none}
use ndhcpd.Db.Sqlite.LeaseRows.{lease_of_row-LeaseRow, lease_of_row-project}
use ndhcpd.Db.Sqlite.Dhcp.{select_active_lease, get_active_lease}
use ndhcpd.Db.Sqlite.Leases.{lease_rows}

-- `l` is an active lease of the client.
abbrev pub ActiveOf : ℕ → Text → Lease → Type 0
ActiveOf now mac l = (same_mac mac l.mac_address ≡ true) × (is_active now l ≡ true)

-- The answer is the active lease of the client that ends last, or there is none.
abbrev pub Latest : ℕ → Text → List Lease → Option Lease → Type 0
Latest now mac ls none = (l : Lease) → In l ls → ¬ ActiveOf now mac l
Latest now mac ls (some l) =
    In l ls
    × ActiveOf now mac l
    × ((l' : Lease) → In l' ls → ActiveOf now mac l' → l'.lease_end ≤ l.lease_end)

module _ {S : Type 0} (engine : Engine S) (laws : SqlLaws engine) where
  open laws use {rows}

  meets-ActiveOf :
      (now : ℕ) (mac : Text) (r : Row) (l : Lease)
      → lease_of_row r ≡ some l
      → meets (select_active_lease now mac).condition r
        ≡ (same_mac mac l.mac_address && is_active now l)
  meets-ActiveOf now mac r l h =
      let row = lease_of_row-LeaseRow r l h in rw (row.mac_address, row.lease_end) refl

  -- What `get_active_lease` of the database in SQLite answers is an active lease of the client, in
  -- whatever case its hardware address is written, and none of its active leases ends later. It
  -- answers none only if the client has no active lease. The engine meets the laws of SQL.
  pub get_active_lease-Latest :
      (now : ℕ) (mac : Text) (s : S) (answer : Option Lease)
      → get_active_lease engine now mac s ≡ ok answer
      → Latest now mac (lease_rows engine laws s) answer
  unfolding get_active_lease
  get_active_lease-Latest now mac s none e = λ l m (same, active).
      let q = select_active_lease now mac in
      let (r, k, h) = In-values_of lease_of_row (rows Table.leases s) l m in
      let missed =
        laws.selected_none q s r (first_row-eq-none lease_of_row (engine.fetch_optional q s) e) k in
      let met = meets-ActiveOf now mac r l h in absurd (ground (arith, met, missed, same, active))
  get_active_lease-Latest now mac s (some l) e =
      let q = select_active_lease now mac in
      let (r, f, h) = first_row-eq-some lease_of_row (engine.fetch_optional q s) l e in
      let (r', k, met, cut) = laws.selected_some q s r f in
      let h' : lease_of_row r' ≡ some l =
        sym (lease_of_row-project r') ∙ ap lease_of_row (sym cut) ∙ h in
      let both = sym (meets-ActiveOf now mac r' l h') ∙ met in
      (
        values_of-In lease_of_row (rows Table.leases s) l r' k h',
        (ground (arith, both), ground (arith, both)),
        λ l' m a.
            let (r'', k'', h'') = In-values_of lease_of_row (rows Table.leases s) l' m in
            let met'' = meets-ActiveOf now mac r'' l' h'' in
            laws.ordered q s Column.lease_end r r'' l.lease_end l'.lease_end refl f
              (lease_of_row-LeaseRow r l h).lease_end k'' (ground (arith, met'', a))
              (lease_of_row-LeaseRow r'' l' h'').lease_end,
      )
