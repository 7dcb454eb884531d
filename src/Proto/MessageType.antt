-- ===== src/Proto/MessageType.antt =====
-- crates/dhcp-proto/src/message_type.rs: the message types of RFC 2132.
use ndhcpd.Common.{ℕ, ◌≡◌, refl, Option, none, some, arith, ◌==◌, if◌then◌else◌}

pub data MessageType : Type 0 where
  discover offer request decline ack nak release inform : MessageType

unfoldable pub to_u8 : MessageType → ℕ
to_u8 discover = 1
to_u8 offer = 2
to_u8 request = 3
to_u8 decline = 4
to_u8 ack = 5
to_u8 nak = 6
to_u8 release = 7
to_u8 inform = 8

unfoldable pub from_u8 : ℕ → Option MessageType
from_u8 v =
    if v == 1
    then some discover
    else if v == 2
    then some offer
    else if v == 3
    then some request
    else if v == 4
    then some decline
    else if v == 5
    then some ack
    else if v == 6
    then some nak
    else if v == 7
    then some release
    else if v == 8
    then some inform
    else none

-- The byte of a message type reads back as that type.
pub from_u8-to_u8 : (t : MessageType) → from_u8 (to_u8 t) ≡ some t
unfolding from_u8 to_u8
from_u8-to_u8 discover = refl
from_u8-to_u8 _ = refl

-- A byte that reads as a type is the byte of that type, so every other byte is refused.
pub to_u8-from_u8 : (v : ℕ) (t : MessageType) → from_u8 v ≡ some t → v ≡ to_u8 t
unfolding from_u8 to_u8
to_u8-from_u8 v t h = ground arith
