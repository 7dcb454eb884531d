-- ===== src/Handlers/Others.antt =====
-- crates/ndhcpd/src/handlers/{ranges,static_ips,leases,ia_prefixes}.rs
use ndhcpd.Common.{ℕ, Option, List, Result, ◌==◌, if◌then◌else◌}
use ndhcpd.Bytes.{Text}
use ndhcpd.Config.{RaConfig}
use ndhcpd.Models.{DynamicRange, StaticIp, Lease, IaPrefix}
use ndhcpd.Db.Interface.{Database}
use ndhcpd.Handlers.{
  StatusCode, status_ok, created, no_content, or_internal, or_conflict, or_not_found, map_ok,
}

-- `if value == 0 { value = default }`
abbrev pub or_default : ℕ → ℕ → ℕ
or_default value default = if value == 0 then default else value

-- The defaults of the configuration for the lifetimes that a request leaves at zero.
unfoldable pub with_defaults : RaConfig → IaPrefix → IaPrefix
with_defaults ra prefix = record prefix {
  preferred_lifetime = or_default prefix.preferred_lifetime ra.default_preferred_lifetime;
  valid_lifetime = or_default prefix.valid_lifetime ra.default_valid_lifetime;
  dns_lifetime = or_default prefix.dns_lifetime ra.default_dns_lifetime;
}

module _ {S : Type 0} (db : Database S) where
  unfoldable pub list_ranges : Option ℕ → S → Result StatusCode (List DynamicRange)
  list_ranges subnet_id s = or_internal (db.list_ranges subnet_id s)

  unfoldable pub create_range : DynamicRange → S → S × Result StatusCode (StatusCode × ℕ)
  create_range range s =
      let (s', answer) = db.create_range range s in
      (s', map_ok (λ i. (created, i)) (or_internal answer))

  unfoldable pub delete_range : ℕ → S → S × Result StatusCode StatusCode
  delete_range i s =
      let (s', answer) = db.delete_range i s in (s', map_ok (λ _. no_content) (or_internal answer))

  unfoldable pub list_static_ips : Option ℕ → S → Result StatusCode (List StaticIp)
  list_static_ips subnet_id s = or_internal (db.list_static_ips subnet_id s)

  unfoldable pub create_static_ip : StaticIp → S → S × Result StatusCode StatusCode
  create_static_ip static_ip s =
      let (s', answer) = db.create_static_ip static_ip s in
      (s', map_ok (λ _. created) (or_conflict answer))

  unfoldable pub delete_static_ip : Text → S → S × Result StatusCode StatusCode
  delete_static_ip ip s =
      let (s', answer) = db.delete_static_ip ip s in
      (s', map_ok (λ _. no_content) (or_internal answer))

  unfoldable pub update_static_ip_hostname :
      Text → Option Text → S → S × Result StatusCode StatusCode
  update_static_ip_hostname ip hostname s =
      let (s', answer) = db.update_static_ip_hostname ip hostname s in
      (s', map_ok (λ _. no_content) (or_internal answer))

  unfoldable pub list_leases : ℕ → S → Result StatusCode (List Lease)
  list_leases now s = or_internal (db.list_active_leases now s)

  unfoldable pub list_ia_prefixes : Option Text → S → Result StatusCode (List IaPrefix)
  list_ia_prefixes interface s = or_internal (db.list_ia_prefixes interface s)

  unfoldable pub create_ia_prefix : RaConfig → IaPrefix → S → S × Result StatusCode (StatusCode × ℕ)
  create_ia_prefix ra prefix s =
      let (s', answer) = db.create_ia_prefix (with_defaults ra prefix) s in
      (s', map_ok (λ i. (created, i)) (or_internal answer))

  unfoldable pub get_ia_prefix : ℕ → S → Result StatusCode IaPrefix
  get_ia_prefix i s = or_not_found (or_internal (db.get_ia_prefix i s))

  unfoldable pub update_ia_prefix : ℕ → IaPrefix → S → S × Result StatusCode StatusCode
  update_ia_prefix i prefix s =
      let (s', answer) = db.update_ia_prefix i prefix s in
      (s', map_ok (λ _. status_ok) (or_internal answer))

  unfoldable pub delete_ia_prefix : ℕ → S → S × Result StatusCode StatusCode
  delete_ia_prefix i s =
      let (s', answer) = db.delete_ia_prefix i s in
      (s', map_ok (λ _. no_content) (or_internal answer))
