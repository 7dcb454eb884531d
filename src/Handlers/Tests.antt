-- ===== src/Handlers/Tests.antt =====
-- Runs of the handlers of crates/ndhcpd/src/handlers over a small database in memory.
use ndhcpd.Common.{◌≡◌, ◌↔◌, refl, Bool, true, false, Option, none, some, [], ◌∷◌, err, In, arith}
use ndhcpd.Bytes.{ipv4, Text, text_eq}
use ndhcpd.Config.{default_config, default_ra_config}
use ndhcpd.Models.{Subnet}
use ndhcpd.Db.Memory
use ndhcpd.Db.Memory.{InMemoryDatabase, memory}
use ndhcpd.Db.Memory.Calls.{WellFormed, new-WellFormed}
use ndhcpd.Db.Memory.Leases.{memory_leases}
use ndhcpd.Auth.{Request}
use ndhcpd.Dhcp.History.{Step}
use ndhcpd.Handlers.{conflict, unauthorized}
use ndhcpd.Handlers.Subnets
use ndhcpd.Handlers.Subnets.Disjoint.{Shared, Disjoint, create_subnet_conflict, handlers-Disjoint}
use ndhcpd.Handlers.Routes.{delete_subnet, create_subnet, is_protected, dispatch}
use ndhcpd.Handlers.Routes.Access.{dispatch_intruder, dispatch-Step}

abbrev lan : Subnet
lan = record {
  id = none;
  network = ipv4 192 168 1 0;
  netmask = 24;
  gateway = ipv4 192 168 1 1;
  dns_servers = [];
  domain_name = none;
}

abbrev wide : Subnet
wide = record lan { network = ipv4 192 168 0 0; netmask = 16 }

abbrev one_subnet : InMemoryDatabase
one_subnet = record Memory.new { subnets = lan ∷ [] }

create_subnet_conflict_example :
    ((Subnets.create_subnet memory wide one_subnet).1 ≡ err conflict)
    ↔ ((old : Subnet) × In old one_subnet.subnets × Shared wide old)
create_subnet_conflict_example =
    create_subnet_conflict one_subnet wide
      (record { network = omega arith; netmask = omega arith }, tt)
      (record { network = omega arith; netmask = omega arith })

handlers-Disjoint_example :
    Disjoint (Subnets.create_subnet memory wide one_subnet).0
    × Disjoint (Subnets.delete_subnet memory 1 one_subnet).0
handlers-Disjoint_example =
    handlers-Disjoint one_subnet wide 1 (record { network = omega arith; netmask = omega arith })
      (record {
        networks = (record { network = omega arith; netmask = omega arith }, tt);
        apart = (tt, tt);
      })

-- A hash that keeps the password, in place of Argon2.
abbrev parse_hash : Text → Option Text
parse_hash hash = some hash

abbrev verify_password : Text → Text → Bool
verify_password token hash = text_eq token hash

abbrev no_header : Request
no_header = record { connection = none; authorization = none }

dispatch_intruder_example :
    dispatch parse_hash verify_password memory default_ra_config 0 true no_header
      (delete_subnet 1)
      one_subnet
    ≡ (one_subnet, unauthorized)
unfolding is_protected
dispatch_intruder_example =
    dispatch_intruder parse_hash verify_password default_ra_config 0 no_header (delete_subnet 1)
      one_subnet refl (λ e. cc) (λ known. ground (arith, known.header))

dispatch-Step_example :
    WellFormed
      (dispatch parse_hash verify_password memory default_ra_config 5 false no_header
        (create_subnet lan)
        Memory.new).0
    × Step memory memory_leases default_config 3 Memory.new 5
        (dispatch parse_hash verify_password memory default_ra_config 5 false no_header
          (create_subnet lan)
          Memory.new).0
dispatch-Step_example =
    dispatch-Step parse_hash verify_password default_ra_config 5 default_config 3 false no_header
      (create_subnet lan) Memory.new (omega arith) new-WellFormed
