-- ===== src/Cli/Tests.antt =====
-- The client at concrete commands.
use ndhcpd.Common.{
  ◌≡◌, ◌⊎◌, refl, true, false, Option, none, some, [], ◌∷◌, ok, err, arith, any, Bool,
}
use ndhcpd.Bytes.{Text, ipv4, text_eq}
use ndhcpd.Config.{default_ra_config}
use ndhcpd.Models.{Subnet}
use ndhcpd.Models.Ipv6Servers.{Ipv6Text}
use ndhcpd.Db.Memory
use ndhcpd.Db.Memory.{memory}
use ndhcpd.Db.Memory.Calls.{new-WellFormed}
use ndhcpd.Auth.{Request}
use ndhcpd.Handlers.Routes
use ndhcpd.Handlers.Routes.{Route}
use ndhcpd.Handlers.Subnets.{overlap}
use ndhcpd.Cli.{run}
use ndhcpd.Cli.Client.{ApiRequest, Method, Body, already_exists}
use ndhcpd.Cli.Paths.{static_ips_path, under}
use ndhcpd.Cli.Requests.{Commands, StaticCommands, request_of, static_request}
use ndhcpd.Cli.Routed.{Means, request_for, request_of-Means}
use ndhcpd.Cli.Created.{command_of, subnet_created}

-- No text is an IPv6 address.
abbrev no_ipv6 : Ipv6Text
no_ipv6 = record { to_string = λ a. []; from_string = λ t. none }

abbrev address : Text
address = b'1' ∷ b'0' ∷ b'.' ∷ b'0' ∷ b'.' ∷ b'0' ∷ b'.' ∷ b'5' ∷ []

abbrev delete_address : Commands
delete_address = Commands.static_ip (StaticCommands.delete address)

abbrev delete_request : ApiRequest
delete_request = record {
  method = Method.delete;
  path = under static_ips_path address;
  body = Body.empty;
}

delete_request_sent : request_of no_ipv6 delete_address ≡ ok delete_request
unfolding request_of static_request
delete_request_sent = refl

request_of-Means_example :
    (route : Route) × Means no_ipv6 delete_address route × (request_for route ≡ some delete_request)
request_of-Means_example =
    request_of-Means no_ipv6 delete_address delete_request delete_request_sent

abbrev parse_hash : Text → Option Text
parse_hash hash = some hash

abbrev verify_password : Text → Text → Bool
verify_password token hash = text_eq token hash

abbrev peer : Request
peer = record { connection = none; authorization = none }

abbrev lan : Subnet
lan = record {
  id = none;
  network = ipv4 192 168 1 0;
  netmask = 24;
  gateway = ipv4 192 168 1 1;
  dns_servers = ipv4 1 1 1 1 ∷ [];
  domain_name = none;
}

abbrev to_create : ApiRequest → Option Route
to_create request = some (Routes.create_subnet lan)

subnet_created_example :
    ((any (overlap lan) Memory.new.subnets ≡ true)
      × (run parse_hash verify_password memory default_ra_config 5 no_ipv6 to_create peer
            (command_of lan)
            Memory.new
          ≡ (Memory.new, err already_exists)))
    ⊎ ((any (overlap lan) Memory.new.subnets ≡ false)
        × ((run parse_hash verify_password memory default_ra_config 5 no_ipv6 to_create peer
              (command_of lan)
              Memory.new).1
            ≡ ok tt)
        × (Memory.get_subnet Memory.new.next_subnet_id
              (run parse_hash verify_password memory default_ra_config 5 no_ipv6 to_create peer
                (command_of lan)
                Memory.new).0
            ≡ ok (some (record lan { id = some Memory.new.next_subnet_id }))))
subnet_created_example =
    subnet_created parse_hash verify_password default_ra_config 5 no_ipv6 to_create peer lan
      Memory.new
      (record {
        network = omega arith;
        netmask = omega arith;
        gateway = omega arith;
        dns_servers = (omega arith, tt);
      })
      (λ e. cc) new-WellFormed refl
