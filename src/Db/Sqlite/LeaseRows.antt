-- ===== src/Db/Sqlite/LeaseRows.antt =====
-- How crates/ndhcpd/src/db/sqlite.rs reads the rows of the lease table, and those that it writes.
use ndhcpd.Common.{ℕ, ◌≡◌, refl, subst, Option, none, some, not, ◌==◌, >>=-eq-some}
use ndhcpd.Bytes.{Text, Ipv4Addr, IsU32}
use ndhcpd.Addr.{ipv4_from_string}
use ndhcpd.Addr.RoundTrip.{ipv4_from_string-IsU32, ipv4_from_string-ipv4_to_string}
use ndhcpd.Models.{DynamicRange, Lease}
use ndhcpd.Db.Sql
use ndhcpd.Db.Sql.{
  Table, Column, Row, Value, null, integer, text, meets, project, greater, insert, delete, assign,
  key_of,
}
use ndhcpd.Db.Sqlite.Rows.{
  integer_of, text_of, optional_integer_of, optional_text_of, ipv4_of, range_of_row, lease_of_row,
}
use ndhcpd.Db.Sqlite.Answers.{optional_str}
use ndhcpd.Db.Sqlite.Dhcp.{lease_values, lease_columns}

integer_of-eq-some : (v : Value) (n : ℕ) → integer_of v ≡ some n → v ≡ integer n
integer_of-eq-some null n h = cc
integer_of-eq-some (text t) n h = cc
integer_of-eq-some (integer m) n h = cc

text_of-eq-some : (v : Value) (t : Text) → text_of v ≡ some t → v ≡ text t
text_of-eq-some null t h = cc
text_of-eq-some (text u) t h = cc
text_of-eq-some (integer m) t h = cc

ipv4_of-IsU32 : (v : Value) (a : Ipv4Addr) → ipv4_of v ≡ some a → IsU32 a
unfolding ipv4_of
ipv4_of-IsU32 v a h =
    let (t, e, h') = >>=-eq-some (text_of v) ipv4_from_string a h in ipv4_from_string-IsU32 t a h'

-- What a row of the lease table has where it is read as `l`.
pub record LeaseRow (r : Row) (l : Lease) : Type 0 where
  pub mac_address : r Column.mac_address ≡ text l.mac_address
  pub ip_address : ipv4_of (r Column.ip_address) ≡ some l.ip_address
  pub lease_end : r Column.lease_end ≡ integer l.lease_end

pub lease_of_row-LeaseRow : (r : Row) (l : Lease) → lease_of_row r ≡ some l → LeaseRow r l
unfolding lease_of_row
lease_of_row-LeaseRow r l h =
    let (i, e0, h0) = >>=-eq-some (optional_integer_of (r Column.id)) _ l h in
    let (sid, e1, h1) = >>=-eq-some (integer_of (r Column.subnet_id)) _ l h0 in
    let (mac, e2, h2) = >>=-eq-some (text_of (r Column.mac_address)) _ l h1 in
    let (ip, e3, h3) = >>=-eq-some (ipv4_of (r Column.ip_address)) _ l h2 in
    let (start, e4, h4) = >>=-eq-some (integer_of (r Column.lease_start)) _ l h3 in
    let (end, e5, h5) = >>=-eq-some (integer_of (r Column.lease_end)) _ l h4 in
    let (host, e6, h6) = >>=-eq-some (optional_text_of (r Column.hostname)) _ l h5 in
    let row : Lease = record {
      id = i;
      subnet_id = sid;
      mac_address = mac;
      ip_address = ip;
      lease_start = start;
      lease_end = end;
      hostname = host;
    } in
    let same : row ≡ l = cc in
    subst (LeaseRow r) same (record {
      mac_address = text_of-eq-some _ mac e2;
      ip_address = e3;
      lease_end = integer_of-eq-some _ end e5;
    })

-- A row is read from the listed columns as from all.
pub lease_of_row-project : (r : Row) → lease_of_row (project lease_columns r) ≡ lease_of_row r
unfolding lease_of_row
lease_of_row-project r = refl

pub optional_text_of_str :
    (now : ℕ) (h : Option Text) → optional_text_of (Sql.value_at now (optional_str h)) ≡ some h
optional_text_of_str now none = refl
optional_text_of_str now (some t) = refl

-- The row that `create_lease` inserts is read as the lease, with its key.
pub lease_of_row-inserted :
    (l : Lease) (now i : ℕ) (defaults : Row)
    → IsU32 l.ip_address
    → lease_of_row (assign now (key_of Table.leases i (lease_values l)) defaults)
      ≡ some (record l { id = some i })
unfolding lease_of_row ipv4_of
lease_of_row-inserted l now i defaults h =
    rw (ipv4_from_string-ipv4_to_string l.ip_address h, optional_text_of_str now l.hostname) refl

-- The end of a range that is read is an address of 32 bits.
pub range_of_row-IsU32 :
    (r : Row) (range : DynamicRange) → range_of_row r ≡ some range → IsU32 range.range_end
unfolding range_of_row
range_of_row-IsU32 r range h =
    let (i, e0, h0) = >>=-eq-some (optional_integer_of (r Column.id)) _ range h in
    let (sid, e1, h1) = >>=-eq-some (integer_of (r Column.subnet_id)) _ range h0 in
    let (start, e2, h2) = >>=-eq-some (ipv4_of (r Column.range_start)) _ range h1 in
    let (end, e3, h3) = >>=-eq-some (ipv4_of (r Column.range_end)) _ range h2 in
    let (on, e4, h4) = >>=-eq-some (integer_of (r Column.enabled)) _ range h3 in
    let row : DynamicRange = record {
      id = i;
      subnet_id = sid;
      range_start = start;
      range_end = end;
      enabled = not (on == 0);
    } in
    let same : row ≡ range = cc in subst (λ z. IsU32 z.range_end) same (ipv4_of-IsU32 _ end e3)
