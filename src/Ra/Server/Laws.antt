-- ===== src/Ra/Server/Laws.antt =====
-- What the task of an interface sends (crates/ndhcpd/src/ra/server.rs), whatever wakes it.
use ndhcpd.Common.{
  ℕ, ◌≤◌, ◌≡◌, ◌≢◌, false, some, List, [], ◌∷◌, min, length, All, ok, ◌++◌, ◌⊎◌, err, ◌==◌,
  if◌then◌else◌,
}
use ndhcpd.Bytes.{IsU32, Text}
use ndhcpd.Config.{RaConfig}
use ndhcpd.Models.{Ipv6Addr, IaPrefix}
use ndhcpd.Db.Interface.{Database, DbError}
use ndhcpd.Ra.Packet.{all_dns_servers, max_dns_lifetime}
use ndhcpd.Ra.Packet.Reading.{read}
use ndhcpd.Ra.Packet.Values.{IsU128, IsPrefix}
use ndhcpd.Ra.Packet.RoundTrip.{advertised}
use ndhcpd.Ra.Server.{Received, received, would_block, failed, Event, tick, readable, broken}

-- Prefixes that an advertisement has room for.
pub record Fits (distinct : List Ipv6Addr → List Ipv6Addr) (prefixes : List IaPrefix) : Type 0 where
  pub prefixes_fit : All IsPrefix prefixes
  pub lifetime : IsU32 (max_dns_lifetime prefixes)
  pub servers : All IsU128 (distinct (all_dns_servers prefixes))
  pub few_servers : length (distinct (all_dns_servers prefixes)) ≤ 127

-- The states in which the pending datagrams of type 133, Router Solicitation, are handled.
abbrev pub solicited : {S : Type 0} → List (Received S) → List S
solicited [] = []
solicited (would_block ∷ rest) = []
solicited (failed ∷ rest) = []
solicited (received [] s ∷ rest) = solicited rest
solicited (received (type ∷ bytes) s ∷ rest) =
    if type == 133 then s ∷ solicited rest else solicited rest

-- The states in which an advertisement is due: at each tick of the timer and for each solicitation,
-- until the socket fails.
abbrev pub occasions : {S : Type 0} → List (Event S) → List S
occasions [] = []
occasions (broken ∷ events) = []
occasions (tick s ∷ events) = s ∷ occasions events
occasions (readable answers ∷ events) = solicited answers ++ occasions events

module _ {S : Type 0} (db : Database S) (distinct : List Ipv6Addr → List Ipv6Addr) (iface : Text)
    (ra_config : RaConfig) where
  -- What a host makes of a payload: the prefixes, one at least, that the database lists for the
  -- interface in the state `s`.
  pub record Announces (s : S) (payload : List ℕ) : Type 0 where
    pub prefixes : List IaPrefix
    pub listed : db.list_ia_prefixes (some iface) s ≡ ok prefixes
    pub some_prefix : prefixes ≢ []
    pub heard :
        read payload
        ≡ some (
            advertised distinct prefixes 64
              (min ra_config.default_preferred_lifetime 0xffff)
              false
              false)

  -- The database lists no prefix for the interface in the state `s`, or it fails.
  abbrev pub NothingListed : S → Type 0
  NothingListed s =
      (db.list_ia_prefixes (some iface) s ≡ ok [])
      ⊎ ((e : DbError) × (db.list_ia_prefixes (some iface) s ≡ err e))

  -- One payload for each of the states, in their order, that announces the prefixes of that very
  -- state, and none for a state without prefixes.
  pub data Answered : List S → List (List ℕ) → Type 0 where
    done : Answered [] []
    sent :
        {s : S} {states : List S} {payload : List ℕ} {payloads : List (List ℕ)}
        → Announces s payload
        → Answered states payloads
        → Answered (s ∷ states) (payload ∷ payloads)
    silent :
        {s : S} {states : List S} {payloads : List (List ℕ)}
        → NothingListed s
        → Answered states payloads
        → Answered (s ∷ states) payloads

  -- Whatever the database lists for the interface in this state fits.
  abbrev pub FitsAt : S → Type 0
  FitsAt s = (ps : List IaPrefix) → db.list_ia_prefixes (some iface) s ≡ ok ps → Fits distinct ps
