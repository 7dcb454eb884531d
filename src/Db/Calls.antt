-- ===== src/Db/Calls.antt =====
-- The calls of the trait `Database` (crates/ndhcpd/src/db/mod.rs) that change the database, and the
-- sequences of those that leave the leases alone.
use ndhcpd.Common.{ℕ, ◌≡◌, Bool, true, false, Option}
use ndhcpd.Bytes.{Text, IsU32}
use ndhcpd.Models.{Subnet, DynamicRange, StaticIp, Lease, IaPrefix}
use ndhcpd.Models.Fits.{SubnetFits, RangeFits, PrefixFits}
use ndhcpd.Db.Interface.{Database}

-- The updates of the trait, with their arguments.
pub data Call : Type 0 where
  create_subnet : Subnet → Call
  update_subnet : ℕ → Subnet → Call
  delete_subnet : ℕ → Call
  create_range : DynamicRange → Call
  delete_range : ℕ → Call
  create_static_ip : StaticIp → Call
  update_static_ip_hostname : Text → Option Text → Call
  delete_static_ip : Text → Call
  create_lease : Lease → Call
  expire_lease : ℕ → Call
  delete_expired_leases : ℕ → Call
  create_ia_prefix : IaPrefix → Call
  update_ia_prefix : ℕ → IaPrefix → Call
  delete_ia_prefix : ℕ → Call
  create_token : Text → Text → Text → Call
  delete_token : ℕ → Call
  toggle_token : ℕ → Bool → Call
  update_token_last_used : Text → Call

-- The updates that leave the lease table alone.
abbrev pub spares_leases : Call → Bool
spares_leases (create_lease l) = false
spares_leases (expire_lease i) = false
spares_leases (delete_expired_leases now) = false
spares_leases _ = true

-- The values that a call writes are within their Rust types.
abbrev pub Fits : Call → Type 0
Fits (create_subnet x) = SubnetFits x
Fits (update_subnet i x) = SubnetFits x
Fits (create_range x) = RangeFits x
Fits (create_static_ip x) = IsU32 x.ip_address
Fits (create_lease x) = IsU32 x.ip_address
Fits (create_ia_prefix x) = PrefixFits x
Fits (update_ia_prefix i x) = PrefixFits x
Fits _ = Unit

module _ {S : Type 0} (db : Database S) where
  unfoldable pub apply_to : Call → S → S
  apply_to (create_subnet x) s = (db.create_subnet x s).0
  apply_to (update_subnet i x) s = (db.update_subnet i x s).0
  apply_to (delete_subnet i) s = (db.delete_subnet i s).0
  apply_to (create_range x) s = (db.create_range x s).0
  apply_to (delete_range i) s = (db.delete_range i s).0
  apply_to (create_static_ip x) s = (db.create_static_ip x s).0
  apply_to (update_static_ip_hostname ip h) s = (db.update_static_ip_hostname ip h s).0
  apply_to (delete_static_ip ip) s = (db.delete_static_ip ip s).0
  apply_to (create_lease x) s = (db.create_lease x s).0
  apply_to (expire_lease i) s = (db.expire_lease i s).0
  apply_to (delete_expired_leases now) s = (db.delete_expired_leases now s).0
  apply_to (create_ia_prefix x) s = (db.create_ia_prefix x s).0
  apply_to (update_ia_prefix i x) s = (db.update_ia_prefix i x s).0
  apply_to (delete_ia_prefix i) s = (db.delete_ia_prefix i s).0
  apply_to (create_token n h salt) s = (db.create_token n h salt s).0
  apply_to (delete_token i) s = (db.delete_token i s).0
  apply_to (toggle_token i b) s = (db.toggle_token i b s).0
  apply_to (update_token_last_used h) s = (db.update_token_last_used h s).0

  -- The databases that calls which spare the leases make of `s`.
  pub data Changes (s : S) : S → Type 0 where
    unchanged : Changes s s
    then_call :
        {s' : S} (c : Call)
        → spares_leases c ≡ true
        → Fits c
        → Changes s s'
        → Changes s (apply_to c s')
