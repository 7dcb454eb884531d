-- ===== src/Cli/Routed.antt =====
-- Where the requests of crates/ndhcp-cli arrive in the route table of
-- crates/ndhcpd/src/handlers/mod.rs.
use ndhcpd.Common.{
  ℕ, ◌≡◌, refl, Option, none, some, [], ◌∷◌, ◌++◌, ok, to_option, ap, sym, append-nil,
}
use ndhcpd.Bytes.{Text}
use ndhcpd.Models.{Subnet, DynamicRange, StaticIp, IaPrefix}
use ndhcpd.Models.Ipv6Servers.{Ipv6Text}
use ndhcpd.Handlers.Routes.{Route}
use ndhcpd.Cli.Client.{ApiRequest, Method, Body}
use ndhcpd.Cli.Paths.{
  subnets_path, ranges_path, static_ips_path, leases_path, tokens_path, ia_prefixes_path,
  health_path, id_pattern, ip_pattern, hostname_pattern, toggle_pattern, subnet_id_query,
  interface_query, number_text, fill, behind_brace, hostname_suffix,
}
use ndhcpd.Cli.Requests.{
  Commands, SubnetCommands, RangeCommands, StaticCommands, Ip6SubnetCommands, request_of,
  subnet_request, range_request, static_request, ip6_subnet_request, subnet_argument,
  range_argument, static_ip_argument, ia_prefix_argument, sent,
}

abbrev entry : Method → Text → Body → Option ApiRequest
entry method path body = some (record { method = method; path = path; body = body })

abbrev pub optional_query : Text → Option Text → Text
optional_query name none = []
optional_query name (some value) = name ++ value

abbrev pub number_option : Option ℕ → Option Text
number_option none = none
number_option (some n) = some (number_text n)

-- `.route(…)` for every route: its method and its pattern, filled in, with the query and the body that
-- the handler extracts. The body of `create_token` is not one of the client's.
unfoldable pub request_for : Route → Option ApiRequest
unfolding fill
request_for Route.list_subnets = entry Method.get subnets_path Body.empty
request_for (Route.create_subnet x) = entry Method.post subnets_path (Body.subnet x)
request_for (Route.get_subnet i) =
    entry Method.get (subnets_path ++ fill id_pattern (number_text i)) Body.empty
request_for (Route.update_subnet i x) =
    entry Method.put (subnets_path ++ fill id_pattern (number_text i)) (Body.subnet x)
request_for (Route.delete_subnet i) =
    entry Method.delete (subnets_path ++ fill id_pattern (number_text i)) Body.empty
request_for (Route.list_ranges i) =
    entry Method.get (ranges_path ++ optional_query subnet_id_query (number_option i)) Body.empty
request_for (Route.create_range x) = entry Method.post ranges_path (Body.range x)
request_for (Route.delete_range i) =
    entry Method.delete (ranges_path ++ fill id_pattern (number_text i)) Body.empty
request_for (Route.list_static_ips i) =
    entry Method.get (static_ips_path ++ optional_query subnet_id_query (number_option i))
      Body.empty
request_for (Route.create_static_ip x) = entry Method.post static_ips_path (Body.static_ip x)
request_for (Route.delete_static_ip ip) =
    entry Method.delete (static_ips_path ++ fill ip_pattern ip) Body.empty
request_for (Route.update_static_ip_hostname ip h) =
    entry Method.patch (static_ips_path ++ fill hostname_pattern ip) (Body.hostname h)
request_for Route.list_leases = entry Method.get leases_path Body.empty
request_for Route.list_tokens = entry Method.get tokens_path Body.empty
request_for (Route.create_token name token hashed) = none
request_for (Route.delete_token i) =
    entry Method.delete (tokens_path ++ fill id_pattern (number_text i)) Body.empty
request_for (Route.toggle_token i) =
    entry Method.patch (tokens_path ++ fill toggle_pattern (number_text i)) Body.empty
request_for (Route.list_ia_prefixes i) =
    entry Method.get (ia_prefixes_path ++ optional_query interface_query i) Body.empty
request_for (Route.create_ia_prefix x) = entry Method.post ia_prefixes_path (Body.ia_prefix x)
request_for (Route.get_ia_prefix i) =
    entry Method.get (ia_prefixes_path ++ fill id_pattern (number_text i)) Body.empty
request_for (Route.update_ia_prefix i x) =
    entry Method.put (ia_prefixes_path ++ fill id_pattern (number_text i)) (Body.ia_prefix x)
request_for (Route.delete_ia_prefix i) =
    entry Method.delete (ia_prefixes_path ++ fill id_pattern (number_text i)) Body.empty
request_for Route.health_check = entry Method.get health_path Body.empty

-- What the help of each command says that it does, as a route of the daemon.
pub data Means (ipv6 : Ipv6Text) : Commands → Route → Type 0 where
  subnet_list : Means ipv6 (Commands.subnet SubnetCommands.list) Route.list_subnets
  subnet_create :
      {network gateway servers : Text} {netmask : ℕ} {domain : Option Text} (x : Subnet)
      → subnet_argument network netmask gateway servers domain ≡ some x
      → Means ipv6
          (Commands.subnet (SubnetCommands.create network netmask gateway servers domain))
          (Route.create_subnet x)
  subnet_get : {i : ℕ} → Means ipv6 (Commands.subnet (SubnetCommands.get i)) (Route.get_subnet i)
  subnet_delete :
      {i : ℕ} → Means ipv6 (Commands.subnet (SubnetCommands.delete i)) (Route.delete_subnet i)
  range_list :
      {i : Option ℕ} → Means ipv6 (Commands.range (RangeCommands.list i)) (Route.list_ranges i)
  range_create :
      {i : ℕ} {start end : Text} (x : DynamicRange)
      → range_argument i start end ≡ some x
      → Means ipv6 (Commands.range (RangeCommands.create i start end)) (Route.create_range x)
  range_delete :
      {i : ℕ} → Means ipv6 (Commands.range (RangeCommands.delete i)) (Route.delete_range i)
  static_list :
      {i : Option ℕ}
      → Means ipv6 (Commands.static_ip (StaticCommands.list i)) (Route.list_static_ips i)
  static_create :
      {i : ℕ} {mac ip : Text} {hostname : Option Text} (x : StaticIp)
      → static_ip_argument i mac ip hostname ≡ some x
      → Means ipv6
          (Commands.static_ip (StaticCommands.create i mac ip hostname))
          (Route.create_static_ip x)
  static_delete :
      {ip : Text}
      → Means ipv6 (Commands.static_ip (StaticCommands.delete ip)) (Route.delete_static_ip ip)
  static_set_hostname :
      {ip : Text} {hostname : Option Text}
      → Means ipv6
          (Commands.static_ip (StaticCommands.set_hostname ip hostname))
          (Route.update_static_ip_hostname ip hostname)
  prefix_list :
      {interface : Option Text}
      → Means ipv6
          (Commands.ip6_subnet (Ip6SubnetCommands.list interface))
          (Route.list_ia_prefixes interface)
  prefix_create :
      {interface prefix : Text} {len : ℕ} {preferred valid lifetime : Option ℕ}
      {servers : Option Text} (x : IaPrefix)
      → ia_prefix_argument ipv6 interface prefix len preferred valid servers lifetime ≡ some x
      → Means ipv6
          (Commands.ip6_subnet
            (Ip6SubnetCommands.create interface prefix len preferred valid servers lifetime))
          (Route.create_ia_prefix x)
  prefix_get :
      {i : ℕ} → Means ipv6 (Commands.ip6_subnet (Ip6SubnetCommands.get i)) (Route.get_ia_prefix i)
  prefix_delete :
      {i : ℕ}
      → Means ipv6 (Commands.ip6_subnet (Ip6SubnetCommands.delete i)) (Route.delete_ia_prefix i)
  leases : Means ipv6 Commands.leases Route.list_leases
  health : Means ipv6 Commands.health Route.health_check

fill_id : (t : Text) → fill id_pattern t ≡ b'/' ∷ t
unfolding fill behind_brace
fill_id t = ap (λ z. b'/' ∷ z) (append-nil t)

fill_ip : (t : Text) → fill ip_pattern t ≡ b'/' ∷ t
unfolding fill behind_brace
fill_ip t = ap (λ z. b'/' ∷ z) (append-nil t)

fill_hostname : (t : Text) → fill hostname_pattern t ≡ b'/' ∷ (t ++ hostname_suffix)
unfolding fill behind_brace
fill_hostname t = refl

sent-eq-ok :
    {A : Type 0} (body : A → Body) (path : Text) (o : Option A) (r : ApiRequest)
    → sent body path o ≡ ok r
    → (a : A) × (o ≡ some a) × (some r ≡ entry Method.post path (body a))
sent-eq-ok body path none r h = cc
sent-eq-ok body path (some a) r h = (a, refl, sym (ap to_option h))

-- Every request that a command of the client sends is the entry of the daemon's route table for the
-- route that the command stands for, with the values that its arguments give: the same method, the
-- pattern with its parameter filled in, the query and the body.
pub request_of-Means :
    (ipv6 : Ipv6Text) (command : Commands) (request : ApiRequest)
    → request_of ipv6 command ≡ ok request
    → (route : Route) × Means ipv6 command route × (request_for route ≡ some request)
unfolding request_of request_for subnet_request range_request static_request ip6_subnet_request
request_of-Means ipv6 (Commands.subnet SubnetCommands.list) r h = (_, subnet_list, ap to_option h)
request_of-Means ipv6
      (Commands.subnet (SubnetCommands.create network netmask gateway servers domain)) r h =
    let (x, read, e) = sent-eq-ok Body.subnet subnets_path _ r h in (_, subnet_create x read, sym e)
request_of-Means ipv6 (Commands.subnet (SubnetCommands.get i)) r h =
    (_, subnet_get, rw (fill_id (number_text i)) (ap to_option h))
request_of-Means ipv6 (Commands.subnet (SubnetCommands.delete i)) r h =
    (_, subnet_delete, rw (fill_id (number_text i)) (ap to_option h))
request_of-Means ipv6 (Commands.range (RangeCommands.list none)) r h =
    (_, range_list, ap to_option h)
request_of-Means ipv6 (Commands.range (RangeCommands.list (some i))) r h =
    (_, range_list, ap to_option h)
request_of-Means ipv6 (Commands.range (RangeCommands.create i start end)) r h =
    let (x, read, e) = sent-eq-ok Body.range ranges_path _ r h in (_, range_create x read, sym e)
request_of-Means ipv6 (Commands.range (RangeCommands.delete i)) r h =
    (_, range_delete, rw (fill_id (number_text i)) (ap to_option h))
request_of-Means ipv6 (Commands.static_ip (StaticCommands.list none)) r h =
    (_, static_list, ap to_option h)
request_of-Means ipv6 (Commands.static_ip (StaticCommands.list (some i))) r h =
    (_, static_list, ap to_option h)
request_of-Means ipv6 (Commands.static_ip (StaticCommands.create i mac ip hostname)) r h =
    let (x, read, e) = sent-eq-ok Body.static_ip static_ips_path _ r h in
    (_, static_create x read, sym e)
request_of-Means ipv6 (Commands.static_ip (StaticCommands.delete ip)) r h =
    (_, static_delete, rw (fill_ip ip) (ap to_option h))
request_of-Means ipv6 (Commands.static_ip (StaticCommands.set_hostname ip hostname)) r h =
    (_, static_set_hostname, rw (fill_hostname ip) (ap to_option h))
request_of-Means ipv6 (Commands.ip6_subnet (Ip6SubnetCommands.list none)) r h =
    (_, prefix_list, ap to_option h)
request_of-Means ipv6 (Commands.ip6_subnet (Ip6SubnetCommands.list (some interface))) r h =
    (_, prefix_list, ap to_option h)
request_of-Means ipv6
      (Commands.ip6_subnet
        (Ip6SubnetCommands.create interface prefix len preferred valid servers lifetime))
      r h =
    let (x, read, e) = sent-eq-ok Body.ia_prefix ia_prefixes_path _ r h in
    (_, prefix_create x read, sym e)
request_of-Means ipv6 (Commands.ip6_subnet (Ip6SubnetCommands.get i)) r h =
    (_, prefix_get, rw (fill_id (number_text i)) (ap to_option h))
request_of-Means ipv6 (Commands.ip6_subnet (Ip6SubnetCommands.delete i)) r h =
    (_, prefix_delete, rw (fill_id (number_text i)) (ap to_option h))
request_of-Means ipv6 (Commands.leases) r h = (_, leases, ap to_option h)
request_of-Means ipv6 (Commands.health) r h = (_, health, ap to_option h)
