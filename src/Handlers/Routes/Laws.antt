-- ===== src/Handlers/Routes/Laws.antt =====
-- What the handlers behind the routes of crates/ndhcpd/src/handlers/mod.rs do to the database of
-- crates/ndhcpd/src/db/memory.rs.
use ndhcpd.Common.{ℕ, ◌≡◌, refl, true}
use ndhcpd.Config.{RaConfig}
use ndhcpd.Db.Memory
use ndhcpd.Db.Memory.{InMemoryDatabase, memory}
use ndhcpd.Db.Memory.Calls
use ndhcpd.Db.Memory.Calls.{Call, apply, WellFormed, apply-WellFormed}
use ndhcpd.Db.Calls.{spares_leases}
use ndhcpd.Handlers.Routes.{Route, handle}
use ndhcpd.Handlers.Routes.Changes.{handle_cases}

apply-leases :
    (c : Call) (db : InMemoryDatabase) → spares_leases c ≡ true → (apply c db).leases ≡ db.leases
unfolding apply Memory.create_subnet Memory.update_subnet Memory.delete_subnet Memory.create_range
    Memory.delete_range Memory.create_static_ip Memory.update_static_ip_hostname
    Memory.delete_static_ip Memory.create_ia_prefix Memory.update_ia_prefix Memory.delete_ia_prefix
    Memory.create_token Memory.delete_token Memory.toggle_token Memory.update_token_last_used
apply-leases (Calls.create_subnet x) db h = refl
apply-leases (Calls.update_subnet i x) db h = refl
apply-leases (Calls.delete_subnet i) db h = refl
apply-leases (Calls.create_range x) db h = refl
apply-leases (Calls.delete_range i) db h = refl
apply-leases (Calls.create_static_ip x) db h = refl
apply-leases (Calls.update_static_ip_hostname ip n) db h = refl
apply-leases (Calls.delete_static_ip ip) db h = refl
apply-leases (Calls.create_lease x) db h = cc
apply-leases (Calls.expire_lease i) db h = cc
apply-leases (Calls.delete_expired_leases now) db h = cc
apply-leases (Calls.create_ia_prefix x) db h = refl
apply-leases (Calls.update_ia_prefix i x) db h = refl
apply-leases (Calls.delete_ia_prefix i) db h = refl
apply-leases (Calls.create_token n s t) db h = refl
apply-leases (Calls.delete_token i) db h = refl
apply-leases (Calls.toggle_token i b) db h = refl
apply-leases (Calls.update_token_last_used t) db h = refl

-- Every request keeps the database well formed, and its leases as they are, whatever the handler
-- and whoever sent it.
pub handle-Kept :
    (ra_config : RaConfig) (now : ℕ) (route : Route) (db : InMemoryDatabase)
    → WellFormed db
    → WellFormed (handle memory ra_config now route db).0
      × ((handle memory ra_config now route db).0.leases ≡ db.leases)
unfolding apply
handle-Kept ra_config now route db w =
    handle_cases memory (λ z. WellFormed z × (z.leases ≡ db.leases)) ra_config now route db
      (w, refl) (λ c h fits. (apply-WellFormed c db w, apply-leases c db h))
