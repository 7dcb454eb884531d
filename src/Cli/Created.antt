-- ===== src/Cli/Created.antt =====
-- `ndhcp-cli subnet create` of crates/ndhcp-cli/src/commands/subnet.rs against the daemon.
use ndhcpd.Common.{
  ℕ, ◌≡◌, ◌≢◌, ◌⊎◌, refl, true, false, Option, none, some, List, [], ◌∷◌, ok, err, map, All,
  All-mono, any, inl, inr, Bool-cases, Bool,
}
use ndhcpd.Bytes.{Text, Ipv4Addr, IsU32}
use ndhcpd.Addr.{ipv4_to_string, ipv4_from_string}
use ndhcpd.Addr.RoundTrip.{ipv4_from_string-ipv4_to_string}
use ndhcpd.Config.{RaConfig}
use ndhcpd.Models.{Subnet}
use ndhcpd.Models.Fits.{SubnetFits}
use ndhcpd.Models.Ipv6Servers.{Ipv6Text}
use ndhcpd.Models.DnsServers.{
  comma_parts, comma_parts-join, no_commas, trim-IsPlain, ipv4_to_string-IsPlain, IsReadBack,
  dns_servers_to_string,
}
use ndhcpd.Db.Memory
use ndhcpd.Db.Memory.{InMemoryDatabase, memory}
use ndhcpd.Db.Memory.Calls.{WellFormed, new_subnet_found}
use ndhcpd.Auth.{Request}
use ndhcpd.Handlers.Subnets
use ndhcpd.Handlers.Subnets.{overlap}
use ndhcpd.Handlers.Routes
use ndhcpd.Handlers.Routes.{Route, dispatch, dispatch_unix, handle}
use ndhcpd.Cli.{run}
use ndhcpd.Cli.Client.{ApiRequest, Method, Body, already_exists}
use ndhcpd.Cli.Paths.{subnets_path}
use ndhcpd.Cli.Requests.{
  Commands, SubnetCommands, parse_all, subnet_argument, request_of, subnet_request,
}

parse_all-map :
    {A : Type 0} (to_string : A → Text) (from_string : Text → Option A) (xs : List A)
    → All (IsReadBack to_string from_string) xs
    → parse_all from_string (map to_string xs) ≡ some xs
unfolding parse_all
parse_all-map to_string from_string [] h = refl
parse_all-map to_string from_string (a ∷ xs) ((read, plain), hs) =
    rw (trim-IsPlain (to_string a) plain, read, parse_all-map to_string from_string xs hs) refl

servers_read :
    (servers : List Ipv4Addr)
    → All IsU32 servers
    → servers ≢ []
    → parse_all ipv4_from_string (comma_parts (dns_servers_to_string servers)) ≡ some servers
unfolding dns_servers_to_string
servers_read [] h some_server = absurd (some_server refl)
servers_read (a ∷ servers) h some_server =
    let back =
      All-mono IsU32 (IsReadBack ipv4_to_string ipv4_from_string)
        (λ b fits. (ipv4_from_string-ipv4_to_string b fits, ipv4_to_string-IsPlain b)) (a ∷ servers)
        h in
    rw
      (comma_parts-join (ipv4_to_string a) (map ipv4_to_string servers)
        (no_commas ipv4_to_string ipv4_from_string (a ∷ servers) back))
      (parse_all-map ipv4_to_string ipv4_from_string (a ∷ servers) back)

-- The arguments that describe a subnet.
abbrev pub command_of : Subnet → Commands
command_of x = Commands.subnet (
    SubnetCommands.create (ipv4_to_string x.network) x.netmask (ipv4_to_string x.gateway)
      (dns_servers_to_string x.dns_servers) x.domain_name)

abbrev pub request_to_create : Subnet → ApiRequest
request_to_create x = record { method = Method.post; path = subnets_path; body = Body.subnet x }

subnet_read :
    (x : Subnet)
    → SubnetFits x
    → x.dns_servers ≢ []
    → subnet_argument
        (ipv4_to_string x.network)
        x.netmask
        (ipv4_to_string x.gateway)
        (dns_servers_to_string x.dns_servers)
        x.domain_name
      ≡ some (record x { id = none })
unfolding subnet_argument
subnet_read x fits some_server =
    rw
      (
        ipv4_from_string-ipv4_to_string x.network fits.network,
        ipv4_from_string-ipv4_to_string x.gateway fits.gateway,
        servers_read x.dns_servers fits.dns_servers some_server,
      )
      refl

request_of-command_of :
    (ipv6 : Ipv6Text) (x : Subnet)
    → SubnetFits x
    → x.dns_servers ≢ []
    → request_of ipv6 (command_of x) ≡ ok (request_to_create (record x { id = none }))
unfolding request_of subnet_request
request_of-command_of ipv6 x fits some_server = rw (subnet_read x fits some_server) refl

module _ {PasswordHash : Type 0} (parse_hash : Text → Option PasswordHash)
    (verify_password : Text → PasswordHash → Bool) (ra_config : RaConfig) (now : ℕ)
    (ipv6 : Ipv6Text) (resolve : ApiRequest → Option Route) (peer : Request) where
  -- `ndhcp-cli subnet create` with the printed fields of a subnet, against the Unix socket of a
  -- daemon over a well-formed database in memory: where the subnet overlaps none, the command
  -- succeeds and the daemon then finds exactly that subnet under the next id; where it overlaps
  -- one, the command reports that it already exists and nothing changes. The fields are within
  -- their types, there is at least one DNS server, and the router resolves a POST to /api/subnets
  -- to its handler.
  pub subnet_created :
      (x : Subnet) (db : InMemoryDatabase)
      → SubnetFits x
      → x.dns_servers ≢ []
      → WellFormed db
      → resolve (request_to_create (record x { id = none }))
        ≡ some (Routes.create_subnet (record x { id = none }))
      → ((any (overlap x) db.subnets ≡ true)
          × (run parse_hash verify_password memory ra_config now ipv6 resolve peer (command_of x) db
              ≡ (db, err already_exists)))
        ⊎ ((any (overlap x) db.subnets ≡ false)
            × ((run parse_hash verify_password memory ra_config now ipv6 resolve peer
                  (command_of x)
                  db).1
                ≡ ok tt)
            × (Memory.get_subnet db.next_subnet_id
                  (run parse_hash verify_password memory ra_config now ipv6 resolve peer
                    (command_of x)
                    db).0
                ≡ ok (some (record x { id = some db.next_subnet_id }))))
  unfolding run dispatch_unix dispatch handle Subnets.create_subnet Memory.list_subnets
      Memory.create_subnet
  subnet_created x db fits some_server w routed =
      let asked = request_of-command_of ipv6 x fits some_server in
      elim (Bool-cases (any (overlap x) db.subnets)) [
        | inl hit ↦ inl (hit, rw (asked, routed, hit, run) refl)
        | inr clear ↦ inr (
          clear,
          rw (asked, routed, clear, run) refl,
          rw (asked, routed, clear, run) (new_subnet_found db (record x { id = none }) w),
        )
      ]
