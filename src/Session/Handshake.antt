-- ===== src/Session/Handshake.antt =====
-- session.rs: `connect_initiator_pinned` and `accept_ex`, and the calls that go to them.
use ppo_se_protocol.Common.{
  ℕ, Bool, true, false, not, Option, none, some, List, [], ◌∷◌, Result, ok, err,
}
use ppo_se_protocol.Common.Action.{
  Action, and_then, ◌>>=◌, ◌>>◌, pure, raise, raise_if, gets, require, lift, or_raise, on,
}
use ppo_se_protocol.Wire.{SocketAddr, max_datagram, addr_discrete}
use ppo_se_protocol.Packet.{PacketType, handshake, same_type}
use ppo_se_protocol.Crypto.{Primitives}
use ppo_se_protocol.Noise.{
  Snow, NoiseSession, NoiseError, initiator, responder, write_handshake, read_handshake, pin_remote,
  is_transport,
}
use ppo_se_protocol.Onion.{OnionHop}
use ppo_se_protocol.Cover.{off}
use ppo_se_protocol.Udp.{Host, Socket, instant_now, recv_raw}
use ppo_se_protocol.Session.{
  SessionPath, direct, via_relay, via_onion, SessionError, io, noise, unexpected_type,
  unexpected_addr, handshake_incomplete, empty_onion, UdpSession,
}
use ppo_se_protocol.Session.Framing.{decode_incoming}
use ppo_se_protocol.Session.Link.{on_noise, set_outbound_onion, send_inner, recv_inner}

-- The next hop, the peer, whether a relay is used, and the hops of an onion.
unfoldable pub resolve :
    SessionPath → Result SessionError (SocketAddr × SocketAddr × Bool × Option (List OnionHop))
resolve (direct peer) = ok (peer, peer, false, none)
resolve (via_relay relay peer) = ok (relay, peer, true, none)
resolve (via_onion [] dest) = err empty_onion
resolve (via_onion (first ∷ rest) dest) = ok (first.addr, dest, false, some (first ∷ rest))

module _ (snow : Snow) (prims : Primitives) (host : Host) where
  -- `Self { .. }` at the end of the set-up: the clock is read for `last_cover`.
  unfoldable pub opening :
      SocketAddr
      → SocketAddr
      → Bool
      → Option (List OnionHop)
      → NoiseSession snow
      → Action Socket SessionError (UdpSession snow)
  unfolding instant_now
  opening next_hop peer relayed hops state sock = and_then (instant_now host sock) (λ now sock. (
    sock,
    ok record {
      sock = sock;
      next_hop = next_hop;
      peer = peer;
      via_relay = relayed;
      onion = hops;
      noise = state;
      arq = ppo_se_protocol.Arq.new;
      drop_data = 0;
      cover = off;
      last_cover = now;
    },
  ))

  -- A session that fails is dropped; what it did to the socket stays.
  abbrev pub finished :
      UdpSession snow × Result SessionError (Unit {0})
      → Socket × Result SessionError (UdpSession snow)
  finished (s, ok _) = (s.sock, ok s)
  finished (s, err e) = (s.sock, err e)

  abbrev pub run_on :
      Action (UdpSession snow) SessionError (Unit {0})
      → UdpSession snow
      → Action Socket SessionError (UdpSession snow)
  run_on m s sock = finished (m record s { sock = sock })

  -- A handshake message goes out; one comes in.
  unfoldable pub tell : Action (UdpSession snow) SessionError (Unit {0})
  unfolding write_handshake send_inner
  tell = do
    msg ← on_noise (write_handshake snow [] max_datagram)
    send_inner prims host handshake msg

  unfoldable pub take_message :
      PacketType × List ℕ → Action (UdpSession snow) SessionError (Unit {0})
  unfolding read_handshake same_type
  take_message (ty, body) = do
    raise_if (not (same_type ty handshake)) unexpected_type
    payload ← on_noise (read_handshake snow body max_datagram)
    pure tt

  unfoldable pub hear : Action (UdpSession snow) SessionError (Unit {0})
  unfolding recv_inner take_message
  hear s = and_then (recv_inner prims host s) take_message

  -- `if let Some(exp) = expected { .. }`
  unfoldable pub pin : Option (List ℕ) → Action (UdpSession snow) SessionError (Unit {0})
  unfolding pin_remote
  pin none s = (s, ok tt)
  pin (some expected) s = lift noise (pin_remote snow expected s.noise) s

  -- The end of both: transport mode, then the pinned key.
  unfoldable pub settle : Option (List ℕ) → Action (UdpSession snow) SessionError (Unit {0})
  unfolding pin
  settle expected = do
    over ← gets (λ s. is_transport snow s.noise)
    raise_if (not over) handshake_incomplete
    pin expected

  unfoldable pub initiate : Option (List ℕ) → Action (UdpSession snow) SessionError (Unit {0})
  unfolding tell hear settle
  initiate expected = do tell; hear; tell; settle expected

  -- `seed` is the randomness of the Noise session.
  unfoldable pub connect_initiator_pinned :
      List ℕ → List ℕ → SessionPath → Option (List ℕ) → Action Socket SessionError (UdpSession snow)
  unfolding resolve opening initiate ppo_se_protocol.Noise.new
  connect_initiator_pinned seed local path expected = do
    (next_hop, peer, relayed, hops) ← lift (λ e. e) (resolve path)
    state ← lift noise (ppo_se_protocol.Noise.new snow initiator local seed)
    s ← opening next_hop peer relayed hops state
    run_on (initiate expected) s

  abbrev pub connect_initiator :
      List ℕ → List ℕ → SessionPath → Action Socket SessionError (UdpSession snow)
  connect_initiator seed local path = connect_initiator_pinned seed local path none

  -- `if let Some(relay) = expected_relay { .. }`
  abbrev pub from_relay : Option SocketAddr → SocketAddr → Action Socket SessionError (Unit {0})
  from_relay none from = pure tt
  from_relay (some relay) from = require (addr_discrete from relay) unexpected_addr

  abbrev pub is_some {ℓ} : {A : Type ℓ} → Option A → Bool
  is_some none = false
  is_some (some a) = true

  -- The inner destination of the wrapper, or the source of a datagram that came directly.
  abbrev pub peer_of : Bool → SocketAddr → Option SocketAddr → Action Socket SessionError SocketAddr
  peer_of true from other = or_raise other unexpected_type
  peer_of false from other = pure from

  -- The Noise session is a local variable: it is lost on an error.
  abbrev pub first_message :
      NoiseSession snow × Result NoiseError (List ℕ)
      → Action Socket SessionError (NoiseSession snow)
  first_message (state, ok payload) = pure state
  first_message (state, err e) = raise (noise e)

  abbrev pub return_path :
      Option (List OnionHop × SocketAddr) → Action (UdpSession snow) SessionError (Unit {0})
  return_path none = pure tt
  return_path (some (hops, dest)) = set_outbound_onion hops dest

  unfoldable pub respond :
      Option (List ℕ)
      → Option (List OnionHop × SocketAddr)
      → Action (UdpSession snow) SessionError (Unit {0})
  unfolding tell hear settle set_outbound_onion
  respond expected outbound_onion = do return_path outbound_onion; tell; hear; settle expected

  -- `accept_ex` behind `decode_incoming`.
  unfoldable pub accept_packet :
      Bool
      → Option (List ℕ)
      → Option (List OnionHop × SocketAddr)
      → NoiseSession snow
      → SocketAddr
      → PacketType × List ℕ × Option SocketAddr
      → Action Socket SessionError (UdpSession snow)
  unfolding same_type opening respond read_handshake
  accept_packet relayed expected outbound_onion state from (ty, body, other) = do
    raise_if (not (same_type ty handshake)) unexpected_type
    peer ← peer_of relayed from other
    state ← first_message (read_handshake snow body max_datagram state)
    s ← opening from peer relayed none state
    run_on (respond expected outbound_onion) s

  unfoldable pub accept_ex :
      List ℕ
      → List ℕ
      → Option SocketAddr
      → Option (List ℕ)
      → Option (List OnionHop × SocketAddr)
      → Action Socket SessionError (UdpSession snow)
  unfolding recv_raw decode_incoming accept_packet ppo_se_protocol.Noise.new
  accept_ex seed local expected_relay expected outbound_onion = do
    state ← lift noise (ppo_se_protocol.Noise.new snow responder local seed)
    (raw, from) ← on (λ sock. sock) (λ _ sock. sock) io (recv_raw host)
    from_relay expected_relay from
    packet ← lift (λ e. e) (decode_incoming (is_some expected_relay) raw)
    accept_packet (is_some expected_relay) expected outbound_onion state from packet

  abbrev pub accept_responder_pinned :
      List ℕ
      → List ℕ
      → Option SocketAddr
      → Option (List ℕ)
      → Action Socket SessionError (UdpSession snow)
  accept_responder_pinned seed local expected_relay expected =
      accept_ex seed local expected_relay expected none

  abbrev pub accept_responder :
      List ℕ → List ℕ → Option SocketAddr → Action Socket SessionError (UdpSession snow)
  accept_responder seed local expected_relay = accept_ex seed local expected_relay none none

  abbrev pub accept_responder_onion :
      List ℕ → List ℕ → List OnionHop → SocketAddr → Action Socket SessionError (UdpSession snow)
  accept_responder_onion seed local hops dest = accept_ex seed local none none (some (hops, dest))
