-- ===== src/Db/Interface.antt =====
-- crates/ndhcpd/src/db/mod.rs: the trait `Database`, as a record of operations on a state `S`. A
-- query reads the state and may fail; an update returns the new state with its result. An operation
-- that reads the clock takes the time as an argument.
use ndhcpd.Common.{ℕ, Bool, false, Option, none, some, List, Result, ltb, ◌==◌}
use ndhcpd.Bytes.{Text}
use ndhcpd.Models.{Subnet, DynamicRange, StaticIp, Lease, IaPrefix, ApiToken}

-- `anyhow::Error`, as far as the callers look into it (`is_unique_violation`).
pub data DbError : Type 0 where
  unique_violation other : DbError

-- `row.id == Some(id)`
abbrev pub has_id : ℕ → Option ℕ → Bool
has_id i none = false
has_id i (some j) = j == i

-- `l.lease_end > now`
abbrev pub is_active : ℕ → Lease → Bool
is_active now l = ltb now l.lease_end

abbrev pub Query : Type 0 → Type 0 → Type 0
Query S A = S → Result DbError A

abbrev pub Update : Type 0 → Type 0 → Type 0
Update S A = S → S × Result DbError A

pub record Database (S : Type 0) : Type 0 where
  pub create_subnet : Subnet → Update S ℕ
  pub get_subnet : ℕ → Query S (Option Subnet)
  pub list_subnets : Query S (List Subnet)
  pub update_subnet : ℕ → Subnet → Update S (Unit {0})
  pub delete_subnet : ℕ → Update S (Unit {0})
  pub create_range : DynamicRange → Update S ℕ
  pub list_ranges : Option ℕ → Query S (List DynamicRange)
  pub delete_range : ℕ → Update S (Unit {0})
  pub create_static_ip : StaticIp → Update S (Unit {0})
  pub list_static_ips : Option ℕ → Query S (List StaticIp)
  pub get_static_ip_by_mac : Text → Query S (Option StaticIp)
  pub update_static_ip_hostname : Text → Option Text → Update S (Unit {0})
  pub delete_static_ip : Text → Update S (Unit {0})
  pub create_lease : Lease → Update S ℕ
  pub get_active_lease : ℕ → Text → Query S (Option Lease)
  pub list_active_leases : ℕ → Query S (List Lease)
  pub expire_lease : ℕ → Update S (Unit {0})
  pub delete_expired_leases : ℕ → Update S ℕ
  pub create_ia_prefix : IaPrefix → Update S ℕ
  pub get_ia_prefix : ℕ → Query S (Option IaPrefix)
  pub list_ia_prefixes : Option Text → Query S (List IaPrefix)
  pub update_ia_prefix : ℕ → IaPrefix → Update S (Unit {0})
  pub delete_ia_prefix : ℕ → Update S (Unit {0})
  pub list_tokens : Query S (List (Text × ℕ))
  pub list_api_tokens : Query S (List ApiToken)
  pub create_token : Text → Text → Text → Update S ℕ
  pub delete_token : ℕ → Update S (Unit {0})
  pub toggle_token : ℕ → Bool → Update S (Unit {0})
  pub update_token_last_used : Text → Update S (Unit {0})
