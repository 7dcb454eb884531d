-- ===== src/Db/Tests.antt =====
-- Runs of the database in memory (crates/ndhcpd/src/db/memory.rs).
use ndhcpd.Common.{◌*◌, ◌^◌, ◌≡◌, some, none, [], ◌∷◌, ok}
use ndhcpd.Bytes.{ipv4}
use ndhcpd.Models.{Subnet, IaPrefix}
use ndhcpd.Db.Memory
use ndhcpd.Db.Memory.Calls.{
  WellFormed, create_subnet, delete_subnet, apply, new-WellFormed, apply-WellFormed, created_found,
}

abbrev lan : Subnet
lan = record {
  id = none;
  network = ipv4 192 168 1 0;
  netmask = 24;
  gateway = ipv4 192 168 1 1;
  dns_servers = [];
  domain_name = none;
}

abbrev home : IaPrefix
home = record {
  id = none;
  interface = b'e' ∷ [];
  prefix = 0x20010db8 * 2 ^ 96;
  prefix_len = 64;
  preferred_lifetime = 10;
  valid_lifetime = 20;
  dns_servers = [];
  dns_lifetime = 30;
}

apply-WellFormed_example :
    WellFormed (apply (delete_subnet 1) (apply (create_subnet lan) Memory.new))
apply-WellFormed_example =
    apply-WellFormed (delete_subnet 1) (apply (create_subnet lan) Memory.new)
      (apply-WellFormed (create_subnet lan) Memory.new new-WellFormed)

created_found_example :
    (Memory.get_subnet 1 (Memory.create_subnet lan Memory.new).0
      ≡ ok (some (record lan { id = some 1 })))
    × (Memory.get_ia_prefix 1 (Memory.create_ia_prefix home Memory.new).0
        ≡ ok (some (record home { id = some 1 })))
created_found_example = created_found Memory.new lan home new-WellFormed
