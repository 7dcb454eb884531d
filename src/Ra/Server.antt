-- ===== src/Ra/Server.antt =====
-- crates/ndhcpd/src/ra/server.rs: on which interfaces advertisements are sent, and when. The socket
-- is left out: what it receives is a list of events, what it is given to send a list of payloads.
pub mod Laws
use ndhcpd.Common.{
  ℕ, Bool, true, false, Option, none, some, List, [], ◌∷◌, ◌++◌, min, ◌==◌, if◌then◌else◌, ok, err,
}
use ndhcpd.Bytes.{Text}
use ndhcpd.Config.{Config, RaConfig}
use ndhcpd.Models.{Ipv6Addr, IaPrefix}
use ndhcpd.Db.Interface.{Database}
use ndhcpd.Ra.Packet.{build_router_advertisement, icmpv6_type_rs}

-- `RaServer::run`: the interfaces that get a task.
unfoldable pub run : Config → List Text
run config = elim config.ra [
  | none ↦ []
  | some ra ↦ if ra.enabled then ra.ip6_listen_interfaces else []
]

-- The answer of `try_recv`. A datagram comes with the state of the database when it is handled.
pub data Received (S : Type 0) : Type 0 where
  received : (bytes : List ℕ) (s : S) → Received S
  would_block failed : Received S

-- What wakes the task: its timer, or the socket with the answers that `try_recv` then gives in turn,
-- or an error of the socket.
pub data Event (S : Type 0) : Type 0 where
  tick : S → Event S
  readable : List (Received S) → Event S
  broken : Event S

-- `n >= 1 && recv_buf[0] == ICMPV6_TYPE_RS`
unfoldable pub is_solicitation : List ℕ → Bool
is_solicitation [] = false
is_solicitation (type ∷ rest) = type == icmpv6_type_rs

module _ {S : Type 0} (db : Database S) (distinct : List Ipv6Addr → List Ipv6Addr) (iface : Text)
    (ra_config : RaConfig) where
  -- The advertisement of a nonempty list of prefixes, with `default_preferred_lifetime`, cut to a
  -- `u16`, as the lifetime of the router.
  unfoldable pub send_ra : S → List (List ℕ)
  send_ra s = elim (db.list_ia_prefixes (some iface) s) [
    | err _ ↦ []
    | ok [] ↦ []
    | ok (p ∷ ps) ↦
        build_router_advertisement distinct (p ∷ ps) 64
          (min ra_config.default_preferred_lifetime 0xffff) false false
        ∷ []
  ]

  -- The inner loop: every pending datagram, until one blocks or fails.
  unfoldable pub drain : List (Received S) → List (List ℕ)
  unfolding send_ra is_solicitation
  drain [] = []
  drain (would_block ∷ rest) = []
  drain (failed ∷ rest) = []
  drain (received bytes s ∷ rest) = (if is_solicitation bytes then send_ra s else []) ++ drain rest

  -- The outer loop, which an error of the socket ends.
  unfoldable pub loop : List (Event S) → List (List ℕ)
  unfolding drain
  loop [] = []
  loop (broken ∷ events) = []
  loop (tick s ∷ events) = send_ra s ++ loop events
  loop (readable answers ∷ events) = drain answers ++ loop events

  -- An advertisement at once, then the loop.
  unfoldable pub run_on_interface : S → List (Event S) → List (List ℕ)
  unfolding send_ra loop
  run_on_interface s events = send_ra s ++ loop events
