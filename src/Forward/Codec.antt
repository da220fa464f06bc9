-- ===== src/Forward/Codec.antt =====
-- What the forward wrapper's encoder and decoder agree on.
use ppo_se_protocol.Common.{ℕ, ◌+◌, ◌≤◌, ◌≡◌, List, ◌∷◌, ok, length, arith}
use ppo_se_protocol.Common.Bytes.{IsBytes, from_be_bytes-u16, to_be_bytes-u16}
use ppo_se_protocol.Wire.{outer_header_len, max_datagram, SocketAddr, v4, v6, IsAddr}
use ppo_se_protocol.Forward.{forward_body_overhead, encode_forward_body, decode_forward_body}

-- The relay reads back the destination and the packet that the endpoint wrapped, if the fields of
-- the destination are in range.
pub decode_forward_body-encode_forward_body :
    (dest : SocketAddr) (inner body : List ℕ)
    → IsAddr dest
    → encode_forward_body dest inner ≡ ok body
    → decode_forward_body body ≡ ok (dest, inner)
unfolding encode_forward_body decode_forward_body
decode_forward_body-encode_forward_body (v4 a b c d port) inner body h e =
    ground (arith, from_be_bytes-u16 port)
decode_forward_body-encode_forward_body (v6 octets port) inner body h e = cc

-- A wrapper is six bytes longer than what it wraps, and fits a datagram with the outer header.
pub encode_forward_body_bounds :
    (dest : SocketAddr) (inner body : List ℕ)
    → encode_forward_body dest inner ≡ ok body
    → (length body ≡ forward_body_overhead + length inner)
      × (outer_header_len + length body ≤ max_datagram)
unfolding encode_forward_body
encode_forward_body_bounds (v4 a b c d port) inner body e = ground arith
encode_forward_body_bounds (v6 octets port) inner body e = absurd (cc)

-- Wrapping what was unwrapped gives the same bytes, as long as they fit.
pub encode_forward_body-decode_forward_body :
    (body : List ℕ) (dest : SocketAddr) (inner : List ℕ)
    → IsBytes body
    → outer_header_len + length body ≤ max_datagram
    → decode_forward_body body ≡ ok (dest, inner)
    → encode_forward_body dest inner ≡ ok body
unfolding encode_forward_body decode_forward_body
encode_forward_body-decode_forward_body (a ∷ b ∷ c ∷ d ∷ e ∷ f ∷ rest) dest inner h fits eq =
    ground (arith, to_be_bytes-u16 e f h.1.1.1.1.0 h.1.1.1.1.1.0)
encode_forward_body-decode_forward_body body dest inner h fits eq = absurd (ground arith)
