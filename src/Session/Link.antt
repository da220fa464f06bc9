-- ===== src/Session/Link.antt =====
-- session.rs: `send_inner`, `recv_inner` and `set_outbound_onion`.
use ppo_se_protocol.Common.{
  ℕ, ◌+◌, Option, none, some, List, [], ◌∷◌, Result, ok, err, false, length,
}
use ppo_se_protocol.Common.Action.{Action, and_then, raise, modify, on}
use ppo_se_protocol.Wire.{SocketAddr, IoError, addr_discrete}
use ppo_se_protocol.Packet.{PacketType, PacketError, encode_datagram}
use ppo_se_protocol.Crypto.{Primitives}
use ppo_se_protocol.Noise.{Snow, NoiseSession, NoiseError}
use ppo_se_protocol.Onion.{OnionHop}
use ppo_se_protocol.Udp.{Host, Socket, send_to, recv_raw}
use ppo_se_protocol.Session.{
  SessionError, io, noise, packet, unexpected_addr, empty_onion, UdpSession,
}
use ppo_se_protocol.Session.Framing.{route, decode_incoming}

-- Each hop of an onion takes one draw.
abbrev pub layers_of : Option (List OnionHop) → ℕ
layers_of none = 0
layers_of (some hops) = length hops

module _ {snow : Snow} where
  -- A call on the socket, and one on the Noise session.
  abbrev pub on_sock :
      {A : Type 0} → Action Socket IoError A → Action (UdpSession snow) SessionError A
  on_sock = on (λ s. s.sock) (λ s sock. record s { sock = sock }) io

  abbrev pub on_noise :
      {A : Type 0}
      → Action (NoiseSession snow) NoiseError A
      → Action (UdpSession snow) SessionError A
  on_noise = on (λ s. s.noise) (λ s state. record s { noise = state }) noise

  -- `if let Some(o) = other { self.peer = o; }`
  abbrev pub learn_peer : Option SocketAddr → UdpSession snow → UdpSession snow
  learn_peer none s = s
  learn_peer (some other) s = record s { peer = other }

  abbrev pub through : OnionHop → List OnionHop → SocketAddr → UdpSession snow → UdpSession snow
  through first rest dest s = record s {
    next_hop = first.addr;
    peer = dest;
    onion = some (first ∷ rest);
    via_relay = false;
  }

  unfoldable pub set_outbound_onion :
      List OnionHop → SocketAddr → Action (UdpSession snow) SessionError (Unit {0})
  set_outbound_onion [] dest = raise empty_onion
  set_outbound_onion (first ∷ rest) dest = modify (through first rest dest)

  module _ (prims : Primitives) (host : Host) where
    -- The bytes that `send_inner` gives to the socket, from the inner datagram on.
    unfoldable pub routed :
        Result PacketError (List ℕ) → UdpSession snow → Result PacketError (List ℕ)
    unfolding route
    routed (err e) s = err e
    routed (ok inner_dg) s =
        route prims (λ i. host.draws (s.sock.layers + i)) s.onion s.via_relay s.peer inner_dg

    unfoldable pub wire_of : PacketType → List ℕ → UdpSession snow → Result PacketError (List ℕ)
    unfolding routed encode_datagram
    wire_of ty body s = routed (encode_datagram ty body) s

    abbrev pub draw_layers : UdpSession snow → UdpSession snow
    draw_layers s = record s { sock = record s.sock { layers = s.sock.layers + layers_of s.onion } }

    -- The end of `send_inner`.
    unfoldable pub transmit :
        Result PacketError (List ℕ) → Action (UdpSession snow) SessionError (Unit {0})
    unfolding send_to
    transmit (err e) s = (s, err (packet e))
    transmit (ok wire) s = on_sock (send_to host wire s.next_hop) s

    unfoldable pub send_inner :
        PacketType → List ℕ → Action (UdpSession snow) SessionError (Unit {0})
    unfolding wire_of transmit
    send_inner ty body s = transmit (wire_of ty body s) (draw_layers s)

    -- `recv_inner` behind `decode_incoming`, and behind `recv_raw`.
    unfoldable pub decoded :
        Result SessionError (PacketType × List ℕ × Option SocketAddr)
        → Action (UdpSession snow) SessionError (PacketType × List ℕ)
    decoded (err e) s = (s, err e)
    decoded (ok (ty, body, other)) s = (learn_peer other s, ok (ty, body))

    unfoldable pub read_from :
        {P : Type 0} → Dec P → List ℕ → Action (UdpSession snow) SessionError (PacketType × List ℕ)
    unfolding decoded decode_incoming
    read_from (no _) raw s = (s, err unexpected_addr)
    read_from (yes _) raw s = decoded (decode_incoming s.via_relay raw) s

    unfoldable pub recv_inner : Action (UdpSession snow) SessionError (PacketType × List ℕ)
    unfolding recv_raw read_from
    recv_inner s =
        and_then (on_sock (recv_raw host) s)
          (λ (raw, from) s. read_from (addr_discrete from s.next_hop) raw s)
