-- ===== src/Forward.antt =====
-- network/forward.rs: the IPv4 forward wrapper.
pub mod Codec
use ppo_se_protocol.Common.{
  ℕ, ◌+◌, List, [], ◌∷◌, ◌++◌, Result, ok, err, ltb, if◌then◌else◌, length, get_or, drop, slice,
}
use ppo_se_protocol.Common.Bytes.{to_be_bytes, from_be_bytes}
use ppo_se_protocol.Wire.{outer_header_len, max_datagram, SocketAddr, v4, v6}
use ppo_se_protocol.Packet.{PacketError, truncated, too_large, bad_address}

abbrev pub forward_body_overhead : ℕ
forward_body_overhead = 6

unfoldable pub encode_forward_body : SocketAddr → List ℕ → Result PacketError (List ℕ)
encode_forward_body (v6 octets port) inner = err bad_address
encode_forward_body (v4 a b c d port) inner =
    if ltb max_datagram (outer_header_len + forward_body_overhead + length inner)
    then err too_large
    else ok ((a ∷ b ∷ c ∷ d ∷ []) ++ (to_be_bytes 2 port ++ inner))

-- The indices are in range behind the test of the length.
unfoldable pub decode_forward_body : List ℕ → Result PacketError (SocketAddr × List ℕ)
decode_forward_body body =
    if ltb (length body) forward_body_overhead
    then err truncated
    else ok (
      v4 (get_or body 0 0) (get_or body 1 0) (get_or body 2 0) (get_or body 3 0)
          (from_be_bytes (slice body 4 6)),
      drop forward_body_overhead body,
    )
