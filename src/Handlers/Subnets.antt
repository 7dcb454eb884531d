-- ===== src/Handlers/Subnets.antt =====
-- crates/ndhcpd/src/handlers/subnets.rs
pub mod Disjoint
use ndhcpd.Common.{ℕ, Bool, List, Result, ok, err, any, if◌then◌else◌}
use ndhcpd.Models.{Subnet}
use ndhcpd.Db.Interface.{Database}
use ndhcpd.Net.Overlap.{subnets_overlap}
use ndhcpd.Handlers.{
  StatusCode, status_ok, created, no_content, conflict, internal_server_error, or_internal,
  or_conflict, or_not_found, map_ok,
}

-- The overlap check on two rows.
abbrev pub overlap : Subnet → Subnet → Bool
overlap a b = subnets_overlap a.network a.netmask b.network b.netmask

module _ {S : Type 0} (db : Database S) where
  unfoldable pub list_subnets : S → Result StatusCode (List Subnet)
  list_subnets s = or_internal (db.list_subnets s)

  unfoldable pub create_subnet : Subnet → S → S × Result StatusCode (StatusCode × ℕ)
  create_subnet subnet s = elim (db.list_subnets s) [
    | err _ ↦ (s, err internal_server_error)
    | ok existing ↦
        if any (overlap subnet) existing
        then (s, err conflict)
        else (let (s', answer) = db.create_subnet subnet s in
            (s', map_ok (λ i. (created, i)) (or_conflict answer)))
  ]

  unfoldable pub get_subnet : ℕ → S → Result StatusCode Subnet
  get_subnet i s = or_not_found (or_internal (db.get_subnet i s))

  unfoldable pub update_subnet : ℕ → Subnet → S → S × Result StatusCode StatusCode
  update_subnet i subnet s =
      let (s', answer) = db.update_subnet i subnet s in
      (s', map_ok (λ _. status_ok) (or_internal answer))

  unfoldable pub delete_subnet : ℕ → S → S × Result StatusCode StatusCode
  delete_subnet i s =
      let (s', answer) = db.delete_subnet i s in (s', map_ok (λ _. no_content) (or_internal answer))
