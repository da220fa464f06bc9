-- ===== src/Session/Framing.antt =====
-- session.rs: how a packet is put on the wire for the path of the session, and taken off it.
use ppo_se_protocol.Common.{
  ℕ, Bool, true, false, Option, none, some, List, Result, ok, err, ◌>>=◌, map_err, if◌then◌else◌,
}
use ppo_se_protocol.Wire.{SocketAddr}
use ppo_se_protocol.Packet.{
  PacketType, forward, PacketError, encode_datagram, decode_outer, same_type,
}
use ppo_se_protocol.Forward.{encode_forward_body, decode_forward_body}
use ppo_se_protocol.Crypto.{Primitives}
use ppo_se_protocol.Onion.{OnionHop, Draw, wrap_route}
use ppo_se_protocol.Session.{SessionError, packet, unexpected_type}

-- `send_inner`, from the inner datagram to the bytes that are sent.
unfoldable pub route :
    Primitives
    → (ℕ → Draw)
    → Option (List OnionHop)
    → Bool
    → SocketAddr
    → List ℕ
    → Result PacketError (List ℕ)
unfolding wrap_route encode_forward_body encode_datagram
route prims rng (some hops) relayed peer inner_dg = wrap_route prims rng hops peer inner_dg
route prims rng none false peer inner_dg = ok inner_dg
route prims rng none true peer inner_dg = do
  fb ← encode_forward_body peer inner_dg
  encode_datagram forward fb

-- `decode_incoming` with a relay: the wrapper and the header inside it.
unfoldable pub unwrap_forward :
    List ℕ → Result SessionError (PacketType × List ℕ × Option SocketAddr)
unfolding decode_forward_body decode_outer
unwrap_forward body = do
  (other, inner) ← map_err packet (decode_forward_body body)
  (ity, flags, ibody) ← map_err packet (decode_outer inner)
  ok (ity, ibody, some other)

-- `decode_incoming` behind the first header.
unfoldable pub unwrap :
    Bool → PacketType → List ℕ → Result SessionError (PacketType × List ℕ × Option SocketAddr)
unfolding unwrap_forward same_type
unwrap false ty body = ok (ty, body, none)
unwrap true ty body = if same_type ty forward then unwrap_forward body else err unexpected_type

unfoldable pub decode_incoming :
    Bool → List ℕ → Result SessionError (PacketType × List ℕ × Option SocketAddr)
unfolding unwrap decode_outer
decode_incoming relayed bytes = do
  (ty, flags, body) ← map_err packet (decode_outer bytes)
  unwrap relayed ty body
