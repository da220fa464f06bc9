-- ===== src/Session/Paths.antt =====
-- What a session sends over each kind of path, and what the endpoint at the other end reads.
use ppo_se_protocol.Common.{
  ℕ, ◌+◌, ◌≡◌, refl, ap, sym, subst, ◌∙◌, Bool, true, false, none, some, List, [], ◌∷◌, ◌++◌,
  Result, ok, err, bind-ok, ok-inj, arith, length, map, All,
}
use ppo_se_protocol.Common.Action.{put_back-state}
use ppo_se_protocol.Wire.{SocketAddr, v4, IsAddr, datagram, sends}
use ppo_se_protocol.Packet.{
  PacketType, forward, PacketError, encode_outer, encode_datagram, decode_outer,
}
use ppo_se_protocol.Packet.Codec.{
  decode_outer-encode_outer, decode_outer-encode_datagram, encode_datagram_bounds,
}
use ppo_se_protocol.Forward.{encode_forward_body, decode_forward_body}
use ppo_se_protocol.Crypto.{Primitives, IsSound}
use ppo_se_protocol.Noise.{Snow}
use ppo_se_protocol.Replay.{ReplayCache, accept}
use ppo_se_protocol.Relay.{Relay, step}
use ppo_se_protocol.Relay.Laws.{step-forwards}
use ppo_se_protocol.Onion.Route.{Keeper, hop_of}
use ppo_se_protocol.Onion.Delivery.{deliver, deliver-wrap_route}
use ppo_se_protocol.Udp.{Host, send_to}
use ppo_se_protocol.Session.{io, UdpSession}
use ppo_se_protocol.Session.Framing.{route, unwrap, unwrap_forward, decode_incoming}
use ppo_se_protocol.Session.Link.{send_inner, transmit, routed, wire_of, draw_layers}

encode_datagram-is :
    (ty : PacketType) (body wire : List ℕ)
    → encode_datagram ty body ≡ ok wire
    → wire ≡ encode_outer ty 0 ++ body
unfolding encode_datagram
encode_datagram-is ty body wire h = ground arith

-- A packet that no relay has wrapped.
pub decode_incoming-plain :
    (ty : PacketType) (body : List ℕ)
    → decode_incoming false (encode_outer ty 0 ++ body) ≡ ok (ty, body, none)
unfolding decode_incoming unwrap
decode_incoming-plain ty body = rw (decode_outer-encode_outer ty 0 body) refl

decode_incoming-direct :
    (ty : PacketType) (body wire : List ℕ)
    → encode_datagram ty body ≡ ok wire
    → decode_incoming false wire ≡ ok (ty, body, none)
unfolding decode_incoming unwrap
decode_incoming-direct ty body wire h = rw (decode_outer-encode_datagram ty body wire h) refl

-- A wrapper that names a sender and holds a packet.
decode_incoming-wrapped :
    (flags : ℕ) (ty : PacketType) (body inner fb pkt : List ℕ) (from : SocketAddr)
    → encode_datagram ty body ≡ ok inner
    → decode_outer pkt ≡ ok (forward, flags, fb)
    → decode_forward_body fb ≡ ok (from, inner)
    → decode_incoming true pkt ≡ ok (ty, body, some from)
unfolding decode_incoming unwrap unwrap_forward ppo_se_protocol.Packet.same_type
decode_incoming-wrapped flags ty body inner fb pkt from h p f =
    rw (p, f, decode_outer-encode_datagram ty body inner h) refl

module _ {snow : Snow} (prims : Primitives) (host : Host) where
  -- The session sends the packet that it has framed, and only that, to its next hop.
  abbrev pub Sends : List ℕ → UdpSession snow → UdpSession snow → Type 0
  Sends wire s t = t.sock.outbox ≡ s.sock.outbox ++ ((wire, s.next_hop) ∷ [])

  transmit-ok :
      (r : Result PacketError (List ℕ)) (s : UdpSession snow)
      → (transmit prims host r s).1 ≡ ok tt
      → (wire : List ℕ) × (r ≡ ok wire) × Sends wire s (transmit prims host r s).0
  unfolding transmit send_to
  transmit-ok (err e) s h = absurd (cc h)
  transmit-ok (ok wire) s h = (
    wire,
    refl,
    ap (λ (t : UdpSession snow). t.sock.outbox)
        (put_back-state (λ (s : UdpSession snow) sock. record s { sock = sock }) io s
          (send_to host wire s.next_hop s.sock)),
  )

  send_inner-ok :
      (ty : PacketType) (body : List ℕ) (s : UdpSession snow)
      → (send_inner prims host ty body s).1 ≡ ok tt
      → (wire : List ℕ) × (wire_of prims host ty body s ≡ ok wire)
        × Sends wire s (send_inner prims host ty body s).0
  unfolding send_inner
  send_inner-ok ty body s h =
      transmit-ok (wire_of prims host ty body s) (draw_layers prims host s) h

  routed-ok :
      (o : Result PacketError (List ℕ)) (s : UdpSession snow) (wire : List ℕ)
      → routed prims host o s ≡ ok wire
      → (inner : List ℕ) × (o ≡ ok inner)
        × (route prims (λ i. host.draws (s.sock.layers + i)) s.onion s.via_relay s.peer inner
            ≡ ok wire)
  unfolding routed
  routed-ok (err e) s wire h = absurd (cc h)
  routed-ok (ok inner) s wire h = (inner, refl, h)

  -- A packet that was sent: the bytes on the wire, and the inner datagram that was routed.
  pub record Routed (ty : PacketType) (body : List ℕ) (s : UdpSession snow) : Type 0 where
    pub wire : List ℕ
    pub inner : List ℕ
    pub encoded : encode_datagram ty body ≡ ok inner
    pub sent : Sends wire s (send_inner prims host ty body s).0
    pub path :
        route prims (λ i. host.draws (s.sock.layers + i)) s.onion s.via_relay s.peer inner ≡ ok wire

  pub send_inner-Routed :
      (ty : PacketType) (body : List ℕ) (s : UdpSession snow)
      → (send_inner prims host ty body s).1 ≡ ok tt
      → Routed ty body s
  unfolding wire_of
  send_inner-Routed ty body s h =
      let (wire, w, sent) = send_inner-ok ty body s h in
      let (inner, e, p) = routed-ok (encode_datagram ty body) s wire w in
      record { wire = wire; inner = inner; encoded = e; sent = sent; path = p }

  -- The wrapper of a packet that was sent by way of a relay.
  pub Routed-relayed :
      (ty : PacketType) (body : List ℕ) (s : UdpSession snow) (r : Routed ty body s)
      → s.onion ≡ none
      → s.via_relay ≡ true
      → (fb : List ℕ) × (encode_forward_body s.peer r.inner ≡ ok fb)
        × (encode_datagram forward fb ≡ ok r.wire)
  unfolding route
  Routed-relayed ty body s r no_onion relayed =
      let rng = λ (i : ℕ). host.draws (s.sock.layers + i) in
      let path =
        subst (λ via. route prims rng none via s.peer r.inner ≡ ok r.wire) relayed
          (subst (λ hops. route prims rng hops s.via_relay s.peer r.inner ≡ ok r.wire) no_onion
            r.path) in
      bind-ok (encode_forward_body s.peer r.inner) _ path

  -- On a direct path, a packet that was sent is one datagram to the next hop, and the other end reads
  -- its type and its body off it.
  pub send_inner-direct_path :
      (ty : PacketType) (body : List ℕ) (s : UdpSession snow)
      → s.onion ≡ none
      → s.via_relay ≡ false
      → (send_inner prims host ty body s).1 ≡ ok tt
      → (wire : List ℕ) × Sends wire s (send_inner prims host ty body s).0
        × (decode_incoming false wire ≡ ok (ty, body, none))
  unfolding route
  send_inner-direct_path ty body s no_onion no_relay h =
      let r = send_inner-Routed ty body s h in
      let rng = λ (i : ℕ). host.draws (s.sock.layers + i) in
      let same =
        subst (λ relayed. route prims rng none relayed s.peer r.inner ≡ ok r.wire) no_relay
          (subst (λ hops. route prims rng hops s.via_relay s.peer r.inner ≡ ok r.wire) no_onion
            r.path) in
      (r.wire, r.sent, decode_incoming-direct ty body r.wire (r.encoded ∙ same))

  -- By way of a relay: a packet is sent from an IPv4 address, with its inner datagram new to the cache
  -- of the relay. On what the session sends, the relay sends one packet to the peer of the session,
  -- and the peer reads off that packet the type and the body, and the address of the sender. Both
  -- addresses have their fields in range.
  pub send_inner-relayed :
      (ty : PacketType) (body inner : List ℕ) (s : UdpSession snow) (a b c d port : ℕ)
      (hash : List ℕ → List ℕ) (now : ℕ) (delivered : Bool) (relay : Relay) (kept : ReplayCache)
      → s.onion ≡ none
      → s.via_relay ≡ true
      → IsAddr (v4 a b c d port)
      → IsAddr s.peer
      → encode_datagram ty body ≡ ok inner
      → accept hash inner now relay.replay ≡ (kept, true)
      → (send_inner prims host ty body s).1 ≡ ok tt
      → (wire pkt : List ℕ) × Sends wire s (send_inner prims host ty body s).0
        × (step hash (datagram wire (v4 a b c d port)) now delivered relay
            ≡ sends record { replay = kept } delivered pkt s.peer)
        × (decode_incoming true pkt ≡ ok (ty, body, some (v4 a b c d port)))
  send_inner-relayed ty body inner s a b c d port hash now delivered relay kept no_onion relayed ha
        hp encoded fresh h =
      let r = send_inner-Routed ty body s h in
      let (fb, wrapped, outer) = Routed-relayed ty body s r no_onion relayed in
      let fresh' =
        subst (λ i. accept hash i now relay.replay ≡ (kept, true))
          (ok-inj (sym encoded ∙ r.encoded)) fresh in
      let (pkt, out_body, stepped, header, unwrapped, size) =
        step-forwards hash a b c d port s.peer 0 r.inner fb now delivered relay kept ha hp wrapped
          fresh' in
      (
        r.wire,
        pkt,
        r.sent,
        subst
            (λ w.
              step hash (datagram w (v4 a b c d port)) now delivered relay
              ≡ sends record { replay = kept } delivered pkt s.peer)
            (sym (encode_datagram-is forward fb r.wire outer)) stepped,
        decode_incoming-wrapped 0 ty body r.inner out_body pkt (v4 a b c d port) r.encoded header
            unwrapped,
      )

  -- By way of an onion: with sound primitives, nonces of 24 bytes and addresses whose fields are in
  -- range, hops that have just started pass the datagram on, each to the one after it and the last to
  -- the peer of the session, and the peer reads the type and the body off what the last one sends.
  pub send_inner-onion :
      (ty : PacketType) (body : List ℕ) (s : UdpSession snow) (k : Keeper) (ks : List Keeper)
      (from : SocketAddr) (now : ℕ)
      → IsSound prims
      → ((j : ℕ) → length (host.draws j).nonce ≡ 24)
      → s.onion ≡ some (map (hop_of prims) (k ∷ ks))
      → IsAddr s.peer
      → All (λ k. IsAddr k.addr) (k ∷ ks)
      → (send_inner prims host ty body s).1 ≡ ok tt
      → (wire inner : List ℕ) × Sends wire s (send_inner prims host ty body s).0
        × (deliver prims from now (map (λ k. k.secret) (k ∷ ks)) wire
            ≡ some (map (λ k. k.addr) ks ++ (s.peer ∷ []), inner))
        × (decode_incoming false inner ≡ ok (ty, body, none))
  unfolding route
  send_inner-onion ty body s k ks from now sound nonces hops ha hks h =
      let r = send_inner-Routed ty body s h in
      let rng = λ (i : ℕ). host.draws (s.sock.layers + i) in
      let path =
        subst (λ hops. route prims rng hops s.via_relay s.peer r.inner ≡ ok r.wire) hops r.path in
      (
        r.wire,
        r.inner,
        r.sent,
        deliver-wrap_route prims from now rng k ks s.peer r.inner r.wire sound
            (λ j. nonces (s.sock.layers + j)) ha hks
            (encode_datagram_bounds ty body r.inner r.encoded).1 path,
        decode_incoming-direct ty body r.inner r.encoded,
      )
