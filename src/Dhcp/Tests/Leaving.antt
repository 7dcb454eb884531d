-- ===== src/Dhcp/Tests/Leaving.antt =====
-- The sample client gives its lease back.
use ndhcpd.Common.{◌≡◌, ◌≢◌, ◌↔◌, refl, some, [], ◌∷◌, arith, In}
use ndhcpd.Bytes.{ipv4, text_eq, to_lowercase}
use ndhcpd.Models.{Lease}
use ndhcpd.Db.Memory
use ndhcpd.Db.Memory.{InMemoryDatabase, memory}
use ndhcpd.Db.Memory.Calls.{WellFormed}
use ndhcpd.Db.Memory.Tables.{Numbered-empty}
use ndhcpd.Proto.Mac.{to_string, hex_byte, hex_digit}
use ndhcpd.Dhcp.Leaving.{clean_up_unseen, handle_release_exact}
use ndhcpd.Dhcp.Request.{handle_release}
use ndhcpd.Dhcp.Server.{clean_up}
use ndhcpd.Dhcp.Tests.{client, held, full, sample, discover_packet}

abbrev own : Lease
own = record held { id = some 2; mac_address = to_string client; ip_address = ipv4 192 168 1 101 }

-- The leases of two clients.
abbrev both : InMemoryDatabase
both = record sample { leases = held ∷ own ∷ []; next_lease_id = 3 }

both-WellFormed : WellFormed both
both-WellFormed = record {
  subnets = record {
    ids = (record { i = 1; has = refl; below = omega arith }, tt);
    unique = (tt, tt);
  };
  ranges = record {
    ids = (record { i = 1; has = refl; below = omega arith }, tt);
    unique = (tt, tt);
  };
  leases = record {
    ids = (
      record { i = 1; has = refl; below = omega arith },
      (record { i = 2; has = refl; below = omega arith }, tt),
    );
    unique = ((λ e. ground (arith, e), tt), (tt, tt));
  };
  ia_prefixes = Numbered-empty _;
  tokens = Numbered-empty _;
}

handle_release_exact_example :
    In held (handle_release memory discover_packet 10 both).leases
    ↔ (In held both.leases × (held ≢ own))
unfolding Memory.get_active_lease to_string to_lowercase hex_byte hex_digit text_eq
handle_release_exact_example =
    handle_release_exact both discover_packet 10 own held both-WellFormed refl

clean_up_unseen_example :
    (Memory.list_active_leases 2000 (clean_up memory 1500 full)
      ≡ Memory.list_active_leases 2000 full)
    × (Memory.get_active_lease 2000 (to_string client) (clean_up memory 1500 full)
        ≡ Memory.get_active_lease 2000 (to_string client) full)
clean_up_unseen_example = clean_up_unseen full 1500 2000 (to_string client) (omega arith)
