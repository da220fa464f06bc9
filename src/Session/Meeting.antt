-- ===== src/Session/Meeting.antt =====
-- `connect_initiator_pinned` and `accept_ex` against each other, on a direct path.
use ppo_se_protocol.Common.{
  ℕ, suc, ◌≡◌, refl, ap, ◌∙◌, true, false, Option, none, some, List, [], ◌∷◌, ◌++◌, ok, arith,
  take_all,
}
use ppo_se_protocol.Common.Action.{Action, on, and_then, put_back, lift}
use ppo_se_protocol.Wire.{max_datagram, SocketAddr, datagram}
use ppo_se_protocol.Packet.{handshake, encode_outer, same_type}
use ppo_se_protocol.Crypto.{Primitives}
use ppo_se_protocol.Noise.{Snow, NoiseSession, new, started}
use ppo_se_protocol.Noise.Exchange.{
  Exchange, handshaking, transporting, write-on, read-on, write-last, read-last,
}
use ppo_se_protocol.Cover.{off}
use ppo_se_protocol.Udp.{Host, Socket, recv_raw, recv_from, arrival, tick, instant_now}
use ppo_se_protocol.Session.{SessionError, direct, io, noise, UdpSession}
use ppo_se_protocol.Session.Framing.{decode_incoming}
use ppo_se_protocol.Session.Paths.{decode_incoming-plain}
use ppo_se_protocol.Session.Direct.{on_path, having_sent}
use ppo_se_protocol.Session.Handshake.{
  tell, hear, settle, initiate, connect_initiator_pinned, resolve, opening, respond, accept_ex,
  run_on, finished, accept_packet, first_message,
}
use ppo_se_protocol.Session.Steps.{
  handshake_datagram, IsPinned, having_received, tell-direct, hear-direct, settle-direct,
}

module _ {snow : Snow} (prims : Primitives) (host : Host) where
  module _ (a b : snow.HandshakeState) (run : Exchange snow a b)
      (goes : (i : ℕ) → host.delivers i ≡ true) (expected : Option (List ℕ)) where
    abbrev initiated : UdpSession snow → UdpSession snow
    initiated s =
        having_sent handshake run.third.bytes
          (having_received prims host (having_sent handshake run.first.bytes s))

    initiate-direct :
        (s : UdpSession snow)
        → host.arrivals s.sock.received ≡ datagram (handshake_datagram run.second.bytes) s.next_hop
        → IsPinned snow expected run.a_transport
        → initiate snow prims host expected (on_path (handshaking snow a) s)
          ≡ (on_path (transporting snow run.a_transport) (initiated s), ok tt)
    unfolding initiate
    initiate-direct s arrives p =
        let s1 = having_sent handshake run.first.bytes s in
        let s2 = having_received prims host s1 in
        let rest3 : Unit {0} → Action (UdpSession snow) SessionError (Unit {0}) =
          λ _. settle snow prims host expected in
        let rest2 : Unit {0} → Action (UdpSession snow) SessionError (Unit {0}) =
          λ _ s. and_then (tell snow prims host s) rest3 in
        let rest1 : Unit {0} → Action (UdpSession snow) SessionError (Unit {0}) =
          λ _ s. and_then (hear snow prims host s) rest2 in
        ap (λ x. and_then x rest1)
          (tell-direct prims host run.first.bytes (handshaking snow a) (handshaking snow run.a1) s
            (write-on snow a b run.a1 run.b1 run.first run.a1_goes_on) run.first.fits
            (goes s.sock.sends))
        ∙ ap (λ x. and_then x rest2)
            (hear-direct prims host run.second.bytes run.second.payload (handshaking snow run.a1)
              (handshaking snow run.a2) s1 arrives run.second.fits
              (read-on snow run.b1 run.a1 run.b2 run.a2 run.second run.a2_goes_on))
        ∙ ap (λ x. and_then x rest3)
            (tell-direct prims host run.third.bytes (handshaking snow run.a2)
              (transporting snow run.a_transport) s2
              (write-last snow run.a2 run.b2 run.a3 run.b3 run.third run.a_transport run.a3_finishes
                run.a_converts)
              run.third.fits (goes s2.sock.sends))
        ∙ settle-direct prims host expected run.a_transport (initiated s) p

    -- The responder, once it has read the first message.
    abbrev responded : UdpSession snow → UdpSession snow
    responded s = having_received prims host (having_sent handshake run.second.bytes s)

    respond-direct :
        (s : UdpSession snow)
        → host.arrivals s.sock.received ≡ datagram (handshake_datagram run.third.bytes) s.next_hop
        → IsPinned snow expected run.b_transport
        → respond snow prims host expected none (on_path (handshaking snow run.b1) s)
          ≡ (on_path (transporting snow run.b_transport) (responded s), ok tt)
    unfolding respond
    respond-direct s arrives p =
        let s1 = having_sent handshake run.second.bytes s in
        let rest2 : Unit {0} → Action (UdpSession snow) SessionError (Unit {0}) =
          λ _. settle snow prims host expected in
        let rest1 : Unit {0} → Action (UdpSession snow) SessionError (Unit {0}) =
          λ _ s. and_then (hear snow prims host s) rest2 in
        ap (λ x. and_then x rest1)
          (tell-direct prims host run.second.bytes (handshaking snow run.b1)
            (handshaking snow run.b2) s
            (write-on snow run.b1 run.a1 run.b2 run.a2 run.second run.b2_goes_on) run.second.fits
            (goes s.sock.sends))
        ∙ ap (λ x. and_then x rest2)
            (hear-direct prims host run.third.bytes run.third.payload (handshaking snow run.b2)
              (transporting snow run.b_transport) s1 arrives run.third.fits
              (read-last snow run.a2 run.b2 run.a3 run.b3 run.third run.b_transport run.b3_finishes
                run.b_converts))
        ∙ settle-direct prims host expected run.b_transport (responded s) p

    -- The session as it is set up.
    abbrev fresh : SocketAddr → NoiseSession snow → Socket → UdpSession snow
    fresh addr state sock = record {
      sock = tick sock;
      next_hop = addr;
      peer = addr;
      via_relay = false;
      onion = none;
      noise = state;
      arq = ppo_se_protocol.Arq.new;
      drop_data = 0;
      cover = off;
      last_cover = host.clock sock.ticks;
    }

    connect-direct :
        (seed local : List ℕ) (addr : SocketAddr) (sock : Socket)
        → snow.build_initiator local seed ≡ some a
        → host.arrivals sock.received ≡ datagram (handshake_datagram run.second.bytes) addr
        → IsPinned snow expected run.a_transport
        → let s =
            on_path
              (transporting snow run.a_transport)
              (initiated (fresh addr (handshaking snow a) sock)) in
          connect_initiator_pinned snow prims host seed local (direct addr) expected sock
          ≡ (s.sock, ok s)
    unfolding connect_initiator_pinned opening instant_now resolve new
    connect-direct seed local addr sock built arrives p =
        ap
          (λ o. and_then (lift noise (started snow o) sock) (λ state sock.
            and_then (opening snow prims host addr addr false none state sock)
              (run_on snow prims host (initiate snow prims host expected))))
          built
        ∙ ap (finished snow prims host)
            (initiate-direct (fresh addr (handshaking snow a) sock) arrives p)

    -- Behind the first datagram, which is not part of a session yet.
    abbrev took : Socket → Socket
    took sock = record sock { received = suc sock.received }

    accept_packet-direct :
        (addr : SocketAddr) (sock : Socket)
        → host.arrivals sock.received ≡ datagram (handshake_datagram run.third.bytes) addr
        → IsPinned snow expected run.b_transport
        → let s =
            on_path
              (transporting snow run.b_transport)
              (responded (fresh addr (handshaking snow run.b1) sock)) in
          accept_packet snow prims host false expected none
            (handshaking snow b)
            addr
            (handshake, run.first.bytes, none)
            sock
          ≡ (s.sock, ok s)
    unfolding accept_packet opening instant_now same_type
    accept_packet-direct addr sock arrives p =
        ap
          (λ x. and_then (first_message snow prims host x sock) (λ state sock.
            and_then (opening snow prims host addr addr false none state sock)
              (run_on snow prims host (respond snow prims host expected none))))
          (read-on snow a b run.a1 run.b1 run.first run.b1_goes_on)
        ∙ ap (finished snow prims host)
            (respond-direct (fresh addr (handshaking snow run.b1) sock) arrives p)

    accept-direct :
        (seed local : List ℕ) (addr : SocketAddr) (sock : Socket)
        → snow.build_responder local seed ≡ some b
        → host.arrivals sock.received ≡ datagram (handshake_datagram run.first.bytes) addr
        → host.arrivals (suc sock.received) ≡ datagram (handshake_datagram run.third.bytes) addr
        → IsPinned snow expected run.b_transport
        → let s =
            on_path
              (transporting snow run.b_transport)
              (responded (fresh addr (handshaking snow run.b1) (took sock))) in
          accept_ex snow prims host seed local none expected none sock ≡ (s.sock, ok s)
    unfolding accept_ex recv_raw recv_from new encode_outer
    accept-direct seed local addr sock built arrives again p =
        let rest : NoiseSession snow
            → List ℕ × SocketAddr
            → Action Socket SessionError (UdpSession snow) =
          λ state (raw, from) sock.
            and_then (lift (λ e. e) (decode_incoming false raw) sock)
              (accept_packet snow prims host false expected none state from) in
        ap
          (λ o. and_then (lift noise (started snow o) sock) (λ state sock.
            and_then (on (λ sock. sock) (λ _ sock. sock) io (recv_raw host) sock) (rest state)))
          built
        ∙ ap
            (λ r.
              and_then (put_back (λ _ sock. sock) io sock (took sock, arrival max_datagram r))
                (rest (handshaking snow b)))
            arrives
        ∙ ap (λ raw. rest (handshaking snow b) (raw, addr) (took sock))
            (take_all max_datagram (handshake_datagram run.first.bytes)
              (let f = run.first.fits in omega (arith, f)))
        ∙ ap
            (λ d.
              and_then (lift (λ e. e) d (took sock))
                (accept_packet snow prims host false expected none (handshaking snow b) addr))
            (decode_incoming-plain handshake run.first.bytes)
        ∙ accept_packet-direct addr (took sock) again p

-- Two endpoints whose Noise states exchange the three messages of XX, over sockets that accept every
-- datagram. If what arrives at each is what the other one sends, in turn, then both calls return a
-- session: `connect_initiator_pinned` and `accept_ex` end in transport mode, each with the other's
-- address as its peer, and have sent two and one handshake datagrams. A key that a side pins is
-- the 32 bytes of the other side.
pub connect-accept :
    (snow : Snow) (prims : Primitives) (host_a host_b : Host) (a b : snow.HandshakeState)
    (run : Exchange snow a b) (seed_a local_a seed_b local_b : List ℕ) (addr_a addr_b : SocketAddr)
    (pin_a pin_b : Option (List ℕ)) (sock_a sock_b : Socket)
    → snow.build_initiator local_a seed_a ≡ some a
    → snow.build_responder local_b seed_b ≡ some b
    → ((i : ℕ) → host_a.delivers i ≡ true)
    → ((i : ℕ) → host_b.delivers i ≡ true)
    → host_b.arrivals sock_b.received ≡ datagram (handshake_datagram run.first.bytes) addr_a
    → host_a.arrivals sock_a.received ≡ datagram (handshake_datagram run.second.bytes) addr_b
    → host_b.arrivals (suc sock_b.received) ≡ datagram (handshake_datagram run.third.bytes) addr_a
    → IsPinned snow pin_a run.a_transport
    → IsPinned snow pin_b run.b_transport
    → (s r : UdpSession snow) × (connect_initiator_pinned snow prims host_a seed_a local_a
          (direct addr_b)
          pin_a
          sock_a
        ≡ (s.sock, ok s))
      × (accept_ex snow prims host_b seed_b local_b none pin_b none sock_b ≡ (r.sock, ok r))
      × (s.noise ≡ transporting snow run.a_transport)
      × (r.noise ≡ transporting snow run.b_transport)
      × (s.peer ≡ addr_b)
      × (r.peer ≡ addr_a)
      × (s.sock.outbox
          ≡ (sock_a.outbox ++ ((handshake_datagram run.first.bytes, addr_b) ∷ []))
            ++ ((handshake_datagram run.third.bytes, addr_b) ∷ []))
      × (r.sock.outbox ≡ sock_b.outbox ++ ((handshake_datagram run.second.bytes, addr_a) ∷ []))
connect-accept snow prims host_a host_b a b run seed_a local_a seed_b local_b addr_a addr_b pin_a
      pin_b sock_a sock_b built_a built_b goes_a goes_b first second third pinned_a pinned_b =
    (
      _,
      _,
      connect-direct prims host_a a b run goes_a pin_a seed_a local_a addr_b sock_a built_a second
          pinned_a,
      accept-direct prims host_b a b run goes_b pin_b seed_b local_b addr_a sock_b built_b first
          third pinned_b,
      refl,
      refl,
      refl,
      refl,
      refl,
      refl,
    )
