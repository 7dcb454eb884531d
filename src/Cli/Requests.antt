-- ===== src/Cli/Requests.antt =====
-- The commands of crates/ndhcp-cli/src/main.rs, and the request that each one of
-- crates/ndhcp-cli/src/commands sends, or the argument that stops it.
use ndhcpd.Common.{
  ℕ, Bool, true, false, not, Option, none, some, List, [], ◌∷◌, ◌++◌, ◌>>=◌, Result, ok, err,
  retain,
}
use ndhcpd.Bytes.{Text}
use ndhcpd.Addr.{ipv4_from_string}
use ndhcpd.Models.{Subnet, DynamicRange, StaticIp, IaPrefix}
use ndhcpd.Models.DnsServers.{trim, comma_parts}
use ndhcpd.Models.Ipv6Servers.{Ipv6Text}
use ndhcpd.Cli.Client.{ApiRequest, Method, Body, Failure, bad_argument}
use ndhcpd.Cli.Paths.{
  subnets_path, ranges_path, static_ips_path, leases_path, ia_prefixes_path, health_path,
  hostname_suffix, subnet_id_query, interface_query, number_text, under,
}

pub data SubnetCommands : Type 0 where
  list : SubnetCommands
  create :
      (network : Text) (netmask : ℕ) (gateway dns_servers : Text) (domain_name : Option Text)
      → SubnetCommands
  get delete : ℕ → SubnetCommands

pub data RangeCommands : Type 0 where
  list : Option ℕ → RangeCommands
  create : (subnet_id : ℕ) (start end : Text) → RangeCommands
  delete : ℕ → RangeCommands

pub data StaticCommands : Type 0 where
  list : Option ℕ → StaticCommands
  create : (subnet_id : ℕ) (mac ip : Text) (hostname : Option Text) → StaticCommands
  delete : Text → StaticCommands
  set_hostname : (ip : Text) (hostname : Option Text) → StaticCommands

pub data Ip6SubnetCommands : Type 0 where
  list : Option Text → Ip6SubnetCommands
  create :
      (interface prefix : Text) (prefix_len : ℕ) (preferred_lifetime valid_lifetime : Option ℕ)
      (dns_servers : Option Text) (dns_lifetime : Option ℕ)
      → Ip6SubnetCommands
  get delete : ℕ → Ip6SubnetCommands

pub data Commands : Type 0 where
  subnet : SubnetCommands → Commands
  range : RangeCommands → Commands
  static_ip : StaticCommands → Commands
  ip6_subnet : Ip6SubnetCommands → Commands
  leases health : Commands

-- `.map(|s| s.trim().parse()).collect::<Result<Vec<_>, _>>()`
unfoldable pub parse_all : {A : Type 0} → (Text → Option A) → List Text → Option (List A)
parse_all f [] = some []
parse_all f (t ∷ ts) = do a ← f (trim t); as' ← parse_all f ts; some (a ∷ as')

unfoldable pub subnet_argument : Text → ℕ → Text → Text → Option Text → Option Subnet
subnet_argument network netmask gateway dns_servers domain_name = do
  network_ip ← ipv4_from_string network
  gateway_ip ← ipv4_from_string gateway
  dns_ips ← parse_all ipv4_from_string (comma_parts dns_servers)
  some (record {
    id = none;
    network = network_ip;
    netmask = netmask;
    gateway = gateway_ip;
    dns_servers = dns_ips;
    domain_name = domain_name;
  })

unfoldable pub range_argument : ℕ → Text → Text → Option DynamicRange
range_argument subnet_id start end = do
  start_ip ← ipv4_from_string start
  end_ip ← ipv4_from_string end
  some (record {
    id = none;
    subnet_id = subnet_id;
    range_start = start_ip;
    range_end = end_ip;
    enabled = true;
  })

unfoldable pub static_ip_argument : ℕ → Text → Text → Option Text → Option StaticIp
static_ip_argument subnet_id mac ip hostname = do
  ip_addr ← ipv4_from_string ip
  some (record {
    subnet_id = subnet_id;
    mac_address = mac;
    ip_address = ip_addr;
    hostname = hostname;
  })

abbrev is_blank : Text → Bool
is_blank t = elim (trim t) [ [] ↦ true | c ∷ cs ↦ false ]

abbrev pub or_zero : Option ℕ → ℕ
or_zero none = 0
or_zero (some n) = n

abbrev pub or_empty : Option Text → Text
or_empty none = []
or_empty (some t) = t

-- `Ok(request)` where the arguments are parsed.
abbrev pub sent : {A : Type 0} → (A → Body) → Text → Option A → Result Failure ApiRequest
sent body path none = err bad_argument
sent body path (some a) = ok (record { method = Method.post; path = path; body = body a })

abbrev pub plain : Method → Text → Result Failure ApiRequest
plain method path = ok (record { method = method; path = path; body = Body.empty })

-- `handle` of crates/ndhcp-cli/src/commands/subnet.rs.
unfoldable pub subnet_request : SubnetCommands → Result Failure ApiRequest
subnet_request SubnetCommands.list = plain Method.get subnets_path
subnet_request (SubnetCommands.create network netmask gateway servers domain) =
    sent Body.subnet subnets_path (subnet_argument network netmask gateway servers domain)
subnet_request (SubnetCommands.get i) = plain Method.get (under subnets_path (number_text i))
subnet_request (SubnetCommands.delete i) = plain Method.delete (under subnets_path (number_text i))

-- `handle` of range.rs.
unfoldable pub range_request : RangeCommands → Result Failure ApiRequest
range_request (RangeCommands.list none) = plain Method.get ranges_path
range_request (RangeCommands.list (some i)) =
    plain Method.get (ranges_path ++ (subnet_id_query ++ number_text i))
range_request (RangeCommands.create i start end) =
    sent Body.range ranges_path (range_argument i start end)
range_request (RangeCommands.delete i) = plain Method.delete (under ranges_path (number_text i))

-- `handle` of static_ip.rs.
unfoldable pub static_request : StaticCommands → Result Failure ApiRequest
static_request (StaticCommands.list none) = plain Method.get static_ips_path
static_request (StaticCommands.list (some i)) =
    plain Method.get (static_ips_path ++ (subnet_id_query ++ number_text i))
static_request (StaticCommands.create i mac ip hostname) =
    sent Body.static_ip static_ips_path (static_ip_argument i mac ip hostname)
static_request (StaticCommands.delete ip) = plain Method.delete (under static_ips_path ip)
static_request (StaticCommands.set_hostname ip hostname) = ok (record {
  method = Method.patch;
  path = under static_ips_path (ip ++ hostname_suffix);
  body = Body.hostname hostname;
})

module _ (ipv6 : Ipv6Text) where
  unfoldable pub ia_prefix_argument :
      Text → Text → ℕ → Option ℕ → Option ℕ → Option Text → Option ℕ → Option IaPrefix
  ia_prefix_argument interface prefix prefix_len preferred valid dns_servers dns_lifetime = do
    prefix_addr ← ipv6.from_string prefix
    dns ←
        parse_all ipv6.from_string
          (retain (λ s. not (is_blank s)) (comma_parts (or_empty dns_servers)))
    some (record {
      id = none;
      interface = interface;
      prefix = prefix_addr;
      prefix_len = prefix_len;
      preferred_lifetime = or_zero preferred;
      valid_lifetime = or_zero valid;
      dns_servers = dns;
      dns_lifetime = or_zero dns_lifetime;
    })

  -- `handle` of ip6subnet.rs.
  unfoldable pub ip6_subnet_request : Ip6SubnetCommands → Result Failure ApiRequest
  ip6_subnet_request (Ip6SubnetCommands.list none) = plain Method.get ia_prefixes_path
  ip6_subnet_request (Ip6SubnetCommands.list (some interface)) =
      plain Method.get (ia_prefixes_path ++ (interface_query ++ interface))
  ip6_subnet_request
        (Ip6SubnetCommands.create interface prefix len preferred valid servers lifetime) =
      sent Body.ia_prefix ia_prefixes_path
        (ia_prefix_argument interface prefix len preferred valid servers lifetime)
  ip6_subnet_request (Ip6SubnetCommands.get i) =
      plain Method.get (under ia_prefixes_path (number_text i))
  ip6_subnet_request (Ip6SubnetCommands.delete i) =
      plain Method.delete (under ia_prefixes_path (number_text i))

  -- The request of a command.
  unfoldable pub request_of : Commands → Result Failure ApiRequest
  request_of (Commands.subnet action) = subnet_request action
  request_of (Commands.range action) = range_request action
  request_of (Commands.static_ip action) = static_request action
  request_of (Commands.ip6_subnet action) = ip6_subnet_request action
  request_of Commands.leases = plain Method.get leases_path
  request_of Commands.health = plain Method.get health_path
