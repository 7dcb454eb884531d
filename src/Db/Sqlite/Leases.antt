-- ===== src/Db/Sqlite/Leases.antt =====
-- The lease table of crates/ndhcpd/src/db/sqlite.rs meets the laws that the DHCP server needs.
use ndhcpd.Common.{
  ℕ, ◌≡◌, ◌⊎◌, ◌↔◌, refl, sym, subst, ap, ◌∙◌, true, some, List, ok, In, inl, inr, arith,
  Result-cases,
}
use ndhcpd.Bytes.{Ipv4Addr, IsU32}
use ndhcpd.Models.{Lease}
use ndhcpd.Models.Ipv6Servers.{Ipv6Text}
use ndhcpd.Db.Interface.{is_active}
use ndhcpd.Db.LeaseLaws.{Listed, SameLease}
use ndhcpd.Db.Sql
use ndhcpd.Db.Sql.{
  Table, Column, Row, above, meets, project, Statement, insert, delete, assign, key_of, equals,
  less, always,
}
use ndhcpd.Db.Sql.Engine.{Done, Engine, SqlLaws}
use ndhcpd.Db.Sqlite.{sqlite}
use ndhcpd.Db.Sqlite.Rows.{range_of_row, lease_of_row}
use ndhcpd.Db.Sqlite.Answers.{nothing, rowid, answer-state, answer-eq-ok}
use ndhcpd.Db.Sqlite.Reading.{values_of, In-values_of, values_of-In, all_rows-eq-ok}
use ndhcpd.Db.Sqlite.LeaseRows.{
  range_of_row-IsU32, lease_of_row-LeaseRow, lease_of_row-project, lease_of_row-inserted,
}
use ndhcpd.Db.Sqlite.Dhcp
use ndhcpd.Db.Sqlite.Dhcp.{lease_values, select_active_leases, select_ranges}

module _ {S : Type 0} (engine : Engine S) (laws : SqlLaws engine) where
  open laws use {rows}

  abbrev pub lease_rows : S → List Lease
  lease_rows s = values_of lease_of_row (rows Table.leases s)

  pub list_active :
      (now : ℕ) (s : S) (ls : List Lease) (l : Lease)
      → Dhcp.list_active_leases engine now s ≡ ok ls
      → In l ls ↔ (In l (lease_rows s) × (is_active now l ≡ true))
  unfolding Dhcp.list_active_leases
  list_active now s ls l e =
      let q = select_active_leases now in
      let (rs, f, g) = all_rows-eq-ok lease_of_row (engine.fetch_all q s) ls e in
      (
        λ m.
            let (r, k, h) = In-values_of lease_of_row rs l (subst (In l) g m) in
            let (r', k', met, cut) = (laws.selected q s rs r f).0 k in
            let h' : lease_of_row r' ≡ some l =
              sym (lease_of_row-project r') ∙ ap lease_of_row (sym cut) ∙ h in
            let held = (lease_of_row-LeaseRow r' l h').lease_end in
            (values_of-In lease_of_row (rows Table.leases s) l r' k' h', rw held at met),
        λ (m, active).
            let (r, k, h) = In-values_of lease_of_row (rows Table.leases s) l m in
            let held = (lease_of_row-LeaseRow r l h).lease_end in
            subst (In l) (sym g) (
              values_of-In lease_of_row rs l (project q.columns r)
                ((laws.selected q s rs (project q.columns r) f).1 (r, k, rw held active, refl))
                (lease_of_row-project r ∙ h)),
      )

  -- A statement leaves the leases as they are, or they come from the rows that it leaves.
  pub lease_rows_mono :
      (s s' : S) (l : Lease)
      → ((r : Row) → In r (rows Table.leases s') → In r (rows Table.leases s))
      → In l (lease_rows s')
      → In l (lease_rows s)
  lease_rows_mono s s' l sub m =
      let (r, k, h) = In-values_of lease_of_row (rows Table.leases s') l m in
      values_of-In lease_of_row (rows Table.leases s) l r (sub r k) h

  -- Ranges that are read have addresses of 32 bits.
  pub Listed-IsU32 : (ipv6 : Ipv6Text) (ip : Ipv4Addr) → Listed (sqlite ipv6 engine) ip → IsU32 ip
  unfolding Dhcp.list_ranges
  Listed-IsU32 ipv6 ip (s, ranges, range, e, m, h) =
      let (rs, f, g) =
        all_rows-eq-ok range_of_row (engine.fetch_all (select_ranges always) s) ranges e in
      let (r, k, read) = In-values_of range_of_row rs range (subst (In range) g m) in
      omega (arith, range_of_row-IsU32 r range read)

  delete_rows :
      (c : Sql.Condition) (s : S) (l : Lease)
      → In l (lease_rows (engine.execute (delete Table.leases c) s).0)
      → In l (lease_rows s)
  delete_rows c s l =
      lease_rows_mono s _ l (λ r. laws.delete_elsewhere Table.leases Table.leases c s r)

  -- The rows after a lease is inserted: those before, and the lease under its key.
  inserted_leases :
      (l : Lease) (s : S) (d : Done)
      → IsU32 l.ip_address
      → (engine.execute (insert Table.leases (lease_values l)) s).1 ≡ ok d
      → (l' : Lease)
      → In l' (lease_rows (engine.execute (insert Table.leases (lease_values l)) s).0)
        ↔ (In l' (lease_rows s) ⊎ (l' ≡ record l { id = some d.last_insert_rowid }))
  inserted_leases l s d fits e l' =
      let (now, defaults, _, added) = laws.inserted Table.leases (lease_values l) s d e in
      let new = assign now (key_of Table.leases d.last_insert_rowid (lease_values l)) defaults in
      let read = lease_of_row-inserted l now d.last_insert_rowid defaults fits in
      let s' = (engine.execute (insert Table.leases (lease_values l)) s).0 in
      (
        λ m.
            let (r, k, h) = In-values_of lease_of_row (rows Table.leases s') l' m in
            elim ((added r).0 k) [
              | inl old ↦ inl (values_of-In lease_of_row (rows Table.leases s) l' r old h)
              | inr is_new ↦
                  let h' : lease_of_row new ≡ some l' =
                    subst (λ z. lease_of_row z ≡ some l') is_new h in
                  inr (ground (arith, read, h'))
            ],
        λ m. elim m [
          | inl old ↦
              let (r, k, h) = In-values_of lease_of_row (rows Table.leases s) l' old in
              values_of-In lease_of_row (rows Table.leases s') l' r ((added r).1 (inl k)) h
          | inr is_new ↦
              values_of-In lease_of_row (rows Table.leases s') l' new ((added new).1 (inr refl))
                (read ∙ ap some (sym is_new))
        ],
      )

  pub create :
      (ipv6 : Ipv6Text) (l : Lease) (s : S) (l' : Lease)
      → Listed (sqlite ipv6 engine) l.ip_address
      → In l' (lease_rows (Dhcp.create_lease engine l s).0)
      → In l' (lease_rows s) ⊎ SameLease l' l
  unfolding Dhcp.create_lease
  create ipv6 l s l' listed m =
      let x = engine.execute (insert Table.leases (lease_values l)) s in
      let m' : In l' (lease_rows x.0) =
        subst (λ z. In l' (lease_rows z)) (answer-state rowid x) m in
      elim (Result-cases x.1) [
        | inr (e, failed) ↦ inl (subst (λ z. In l' (lease_rows z)) (laws.refused _ s e failed) m')
        | inl (d, done) ↦ elim ((inserted_leases l s d (Listed-IsU32 ipv6 _ listed) done l').0 m') [
          | inl old ↦ inl old
          | inr new ↦
              inr (rw new (record { mac_address = refl; ip_address = refl; lease_end = refl }))
        ]
      ]

  pub created :
      (ipv6 : Ipv6Text) (l : Lease) (s : S) (i : ℕ)
      → Listed (sqlite ipv6 engine) l.ip_address
      → (Dhcp.create_lease engine l s).1 ≡ ok i
      → (l' : Lease) × In l' (lease_rows (Dhcp.create_lease engine l s).0) × SameLease l' l
  unfolding Dhcp.create_lease
  created ipv6 l s i listed h =
      let x = engine.execute (insert Table.leases (lease_values l)) s in
      let (d, done, _) = answer-eq-ok rowid x i h in
      let l' = record l { id = some d.last_insert_rowid } in
      (
        l',
        subst (λ z. In l' (lease_rows z)) (sym (answer-state rowid x))
            ((inserted_leases l s d (Listed-IsU32 ipv6 _ listed) done l').1 (inr refl)),
        record { mac_address = refl; ip_address = refl; lease_end = refl },
      )

  pub expire :
      (i : ℕ) (s : S) (l : Lease)
      → In l (lease_rows (Dhcp.expire_lease engine i s).0)
      → In l (lease_rows s)
  unfolding Dhcp.expire_lease
  expire i s l m = delete_rows _ s l (subst (λ z. In l (lease_rows z)) (answer-state nothing _) m)

  pub delete_expired :
      (now : ℕ) (s : S) (l : Lease)
      → In l (lease_rows (Dhcp.delete_expired_leases engine now s).0)
      → In l (lease_rows s)
  unfolding Dhcp.delete_expired_leases
  delete_expired now s l m =
      delete_rows _ s l
        (subst (λ z. In l (lease_rows z)) (answer-state (λ (d : Done). d.rows_affected) _) m)
