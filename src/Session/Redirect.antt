-- ===== src/Session/Redirect.antt =====
-- `handle_incoming` takes the peer of the session from the wrapper before it opens the packet.
use ppo_se_protocol.Common.{
  ℕ, ◌≡◌, refl, ap, ◌∙◌, true, none, some, List, [], ◌∷◌, ◌++◌, Result, ok, err, length,
}
use ppo_se_protocol.Common.Action.{and_then, lift}
use ppo_se_protocol.Wire.{SocketAddr, IsAddr}
use ppo_se_protocol.Packet.{PacketType, data_packet, forward, encode_datagram, decode_outer}
use ppo_se_protocol.Packet.Codec.{decode_outer-encode_datagram}
use ppo_se_protocol.Forward.{decode_forward_body}
use ppo_se_protocol.Forward.Codec.{decode_forward_body-encode_forward_body}
use ppo_se_protocol.Crypto.{Primitives}
use ppo_se_protocol.Noise.{Snow, NoiseSession, NoiseError, open_sealed}
use ppo_se_protocol.Udp.{Host}
use ppo_se_protocol.Session.{UdpSession}
use ppo_se_protocol.Session.Framing.{decode_incoming}
use ppo_se_protocol.Session.Link.{learn_peer, send_inner}
use ppo_se_protocol.Session.Transfer.{opened, handle_packet, handle_incoming}
use ppo_se_protocol.Session.Paths.{send_inner-Routed, Routed-relayed}

module _ {snow : Snow} (prims : Primitives) (host : Host) where
  opened-refused :
      (x : NoiseSession snow × Result NoiseError (List ℕ)) (e : NoiseError) (s : UdpSession snow)
      → x.1 ≡ err e
      → opened prims host x s ≡ (record s { noise = x.0 }, ok tt)
  unfolding opened
  opened-refused (n, err e) f s h = refl
  opened-refused (n, ok text) f s h = absurd (cc h)

  -- The session after a wrapper that names another peer, around a packet that does not open.
  abbrev pub redirected : List ℕ → SocketAddr → UdpSession snow → UdpSession snow
  redirected body other s = record s {
    peer = other;
    noise = (open_sealed snow body (length body) s.noise).0;
  }

  handle_incoming-redirected :
      (raw body : List ℕ) (other : SocketAddr) (e : NoiseError) (s : UdpSession snow)
      → s.via_relay ≡ true
      → decode_incoming true raw ≡ ok (data_packet, body, some other)
      → (open_sealed snow body (length body) s.noise).1 ≡ err e
      → handle_incoming prims host raw s ≡ (redirected body other s, ok tt)
  unfolding handle_incoming handle_packet
  handle_incoming-redirected raw body other e s relayed decodes refused =
      ap
        (λ d.
          and_then (lift (λ e. e) d s)
            (λ (ty, body, other) t. handle_packet prims host ty body (learn_peer other t)))
        (ap (λ via. decode_incoming via raw) relayed ∙ decodes)
      ∙ opened-refused (open_sealed snow body (length body) s.noise) e record s { peer = other }
          refused

  -- In a session by way of a relay, a forwarded DATA packet that does not open is skipped without an
  -- error; but from then on what the session sends is wrapped for the address that its wrapper named,
  -- which is one with its fields in range. So who can make the relay forward a packet to the session
  -- can redirect it, without a key.
  pub handle_incoming-redirects :
      (raw body msg : List ℕ) (ty : PacketType) (other : SocketAddr) (e : NoiseError)
      (s : UdpSession snow)
      → s.onion ≡ none
      → s.via_relay ≡ true
      → IsAddr other
      → decode_incoming true raw ≡ ok (data_packet, body, some other)
      → (open_sealed snow body (length body) s.noise).1 ≡ err e
      → (send_inner prims host ty msg (redirected body other s)).1 ≡ ok tt
      → (handle_incoming prims host raw s ≡ (redirected body other s, ok tt))
        × (wire fb inner : List ℕ) × ((send_inner prims host ty msg
              (handle_incoming prims host raw s).0).0.sock.outbox
            ≡ s.sock.outbox ++ ((wire, s.next_hop) ∷ []))
        × (encode_datagram ty msg ≡ ok inner)
        × (decode_outer wire ≡ ok (forward, 0, fb))
        × (decode_forward_body fb ≡ ok (other, inner))
  handle_incoming-redirects raw body msg ty other e s no_onion relayed ho decodes refused sends =
      let t = redirected body other s in
      let same = handle_incoming-redirected raw body other e s relayed decodes refused in
      let r = send_inner-Routed prims host ty msg t sends in
      let (fb, wrapped, outer) = Routed-relayed prims host ty msg t r no_onion relayed in
      (
        same,
        r.wire,
        fb,
        r.inner,
        ap (λ u. (send_inner prims host ty msg u.0).0.sock.outbox) same ∙ r.sent,
        r.encoded,
        decode_outer-encode_datagram forward fb r.wire outer,
        decode_forward_body-encode_forward_body other r.inner fb ho wrapped,
      )
