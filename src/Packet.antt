-- ===== src/Packet.antt =====
-- network/packet.rs: the cleartext outer header.
pub mod Codec
use ppo_se_protocol.Common.{
  ℕ, ◌+◌, ◌≡◌, ◌≢◌, Bool, ◌||◌, not, Option, none, some, List, [], ◌∷◌, ◌++◌, Result, ok, err,
  ◌>>=◌, ltb, ◌==◌, if◌then◌else◌, length, get_or, drop,
}
use ppo_se_protocol.Wire.{protocol_version, magic_0, magic_1, outer_header_len, max_datagram}

pub data PacketType : Type 0 where
  handshake data_packet ack forward onion rendezvous : PacketType

pub data PacketError : Type 0 where
  truncated bad_magic bad_version bad_type too_large bad_address : PacketError

-- `ty as u8`.
unfoldable pub to_u8 : PacketType → ℕ
to_u8 handshake = 1
to_u8 data_packet = 2
to_u8 ack = 3
to_u8 forward = 4
to_u8 onion = 5
to_u8 rendezvous = 6

-- The derived equality.
unfoldable pub same_type : PacketType → PacketType → Bool
unfolding to_u8
same_type a b = to_u8 a == to_u8 b

unfoldable pub from_u8 : ℕ → Option PacketType
from_u8 v =
    if v == 1
    then some handshake
    else if v == 2
    then some data_packet
    else if v == 3
    then some ack
    else if v == 4
    then some forward
    else if v == 5
    then some onion
    else if v == 6
    then some rendezvous
    else none

unfoldable pub encode_outer : PacketType → ℕ → List ℕ
unfolding to_u8
encode_outer ty flags = magic_0 ∷ magic_1 ∷ protocol_version ∷ to_u8 ty ∷ flags ∷ 0 ∷ 0 ∷ 0 ∷ []

unfoldable pub encode_datagram : PacketType → List ℕ → Result PacketError (List ℕ)
unfolding encode_outer
encode_datagram ty body =
    if ltb max_datagram (outer_header_len + length body)
    then err too_large
    else ok (encode_outer ty 0 ++ body)

-- `PacketType::from_u8(b).ok_or(BadType)`.
unfoldable pub type_of_byte : ℕ → Result PacketError PacketType
unfolding from_u8
type_of_byte b = elim (from_u8 b) [ none ↦ err bad_type | some ty ↦ ok ty ]

-- The indices are in range behind the test of the length.
unfoldable pub decode_outer : List ℕ → Result PacketError (PacketType × ℕ × List ℕ)
unfolding type_of_byte
decode_outer bytes =
    if ltb (length bytes) outer_header_len
    then err truncated
    else if not (get_or bytes 0 0 == magic_0) || not (get_or bytes 1 0 == magic_1)
    then err bad_magic
    else if not (get_or bytes 2 0 == protocol_version)
    then err bad_version
    else do
      ty ← type_of_byte (get_or bytes 3 0)
      ok (ty, get_or bytes 4 0, drop outer_header_len bytes)
