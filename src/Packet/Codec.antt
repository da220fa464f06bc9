-- ===== src/Packet/Codec.antt =====
-- What the outer header's encoder and decoder agree on.
use ppo_se_protocol.Common.{
  ℕ, ◌+◌, ◌≤◌, ◌<◌, ◌≡◌, refl, ◌↔◌, ap, ◌∙◌, some, List, ◌∷◌, ◌++◌, ok, err, length, arith,
}
use ppo_se_protocol.Wire.{protocol_version, magic_0, magic_1, outer_header_len, max_datagram}
use ppo_se_protocol.Packet.{
  PacketType, handshake, too_large, to_u8, from_u8, encode_outer, encode_datagram, type_of_byte,
  decode_outer,
}

from_u8-to_u8 : (ty : PacketType) → from_u8 (to_u8 ty) ≡ some ty
unfolding to_u8 from_u8
from_u8-to_u8 handshake = refl
from_u8-to_u8 _ = refl

to_u8_of_from_u8 : (v : ℕ) (ty : PacketType) → from_u8 v ≡ some ty → v ≡ to_u8 ty
unfolding to_u8 from_u8
to_u8_of_from_u8 v ty h = ground arith

-- The decoder inverts the header on any body, whatever the flags.
pub decode_outer-encode_outer :
    (ty : PacketType) (flags : ℕ) (body : List ℕ)
    → decode_outer (encode_outer ty flags ++ body) ≡ ok (ty, flags, body)
unfolding decode_outer encode_outer type_of_byte
decode_outer-encode_outer ty flags body = ground (arith, from_u8-to_u8 ty)

-- A datagram is built exactly when it fits, and is eight bytes longer than its body.
pub encode_datagram-fits :
    (ty : PacketType) (body : List ℕ)
    → outer_header_len + length body ≤ max_datagram
    → encode_datagram ty body ≡ ok (encode_outer ty 0 ++ body)
unfolding encode_datagram
encode_datagram-fits ty body h = ground arith

pub encode_datagram-too_large :
    (ty : PacketType) (body : List ℕ)
    → max_datagram < outer_header_len + length body
    → encode_datagram ty body ≡ err too_large
unfolding encode_datagram
encode_datagram-too_large ty body h = ground arith

pub length-encode_outer : (ty : PacketType) (flags : ℕ) → length (encode_outer ty flags) ≡ 8
unfolding encode_outer
length-encode_outer ty flags = refl

pub encode_datagram_bounds :
    (ty : PacketType) (body pkt : List ℕ)
    → encode_datagram ty body ≡ ok pkt
    → (length pkt ≡ outer_header_len + length body) × (length pkt ≤ max_datagram)
unfolding encode_datagram
encode_datagram_bounds ty body pkt h = ground arith

-- What was encoded decodes to the same type and body, with no flags set.
pub decode_outer-encode_datagram :
    (ty : PacketType) (body pkt : List ℕ)
    → encode_datagram ty body ≡ ok pkt
    → decode_outer pkt ≡ ok (ty, 0, body)
unfolding encode_datagram
decode_outer-encode_datagram ty body pkt h = ground (arith, decode_outer-encode_outer ty 0 body)

accepted_shape :
    (bytes : List ℕ) (ty : PacketType) (flags : ℕ) (body : List ℕ)
    → decode_outer bytes ≡ ok (ty, flags, body)
    → (r : ℕ) × (s : ℕ) × (t : ℕ) × (bytes
        ≡ magic_0 ∷ magic_1 ∷ protocol_version ∷ to_u8 ty ∷ flags ∷ r ∷ s ∷ t ∷ body)
unfolding decode_outer type_of_byte
accepted_shape (a ∷ b ∷ c ∷ d ∷ e ∷ r ∷ s ∷ t ∷ rest) ty flags body h =
    (r, s, t, ground (arith, to_u8_of_from_u8 d ty))
accepted_shape bytes ty flags body h = absurd (ground arith)

shape_accepted :
    (ty : PacketType) (flags r s t : ℕ) (body : List ℕ)
    → decode_outer (magic_0 ∷ magic_1 ∷ protocol_version ∷ to_u8 ty ∷ flags ∷ r ∷ s ∷ t ∷ body)
      ≡ ok (ty, flags, body)
unfolding decode_outer type_of_byte
shape_accepted ty flags r s t body = ground (arith, from_u8-to_u8 ty)

-- The decoder gives a type, flags and a body exactly for the byte strings with the magic, the version
-- and that type in front, the flags, three bytes of any value, and then the body.
pub decode_outer_accepts :
    (bytes : List ℕ) (ty : PacketType) (flags : ℕ) (body : List ℕ)
    → (decode_outer bytes ≡ ok (ty, flags, body)) ↔ (
        (r : ℕ) × (s : ℕ) × (t : ℕ) × (bytes
          ≡ magic_0 ∷ magic_1 ∷ protocol_version ∷ to_u8 ty ∷ flags ∷ r ∷ s ∷ t ∷ body))
decode_outer_accepts bytes ty flags body = (
  accepted_shape bytes ty flags body,
  λ (r, s, t, same). ap decode_outer same ∙ shape_accepted ty flags r s t body,
)
