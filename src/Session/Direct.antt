-- ===== src/Session/Direct.antt =====
-- A session on a direct path whose Noise session has finished its handshake: what `seal_data` gives to
-- the socket, and what `handle_incoming` makes of it.
use ppo_se_protocol.Common.{
  ℕ, suc, ◌+◌, ◌≤◌, ◌≡◌, refl, ap, ◌∙◌, true, false, none, some, List, [], ◌∷◌, ◌++◌, ok, err,
  length, if◌then◌else◌,
}
use ppo_se_protocol.Common.Action.{put_back}
use ppo_se_protocol.Wire.{max_datagram, send_failed}
use ppo_se_protocol.Packet.{PacketType, data_packet, encode_outer}
use ppo_se_protocol.Packet.Codec.{encode_datagram-fits, decode_outer-encode_outer}
use ppo_se_protocol.Crypto.{Primitives}
use ppo_se_protocol.Noise.{Snow, NoiseSession, seal, open_sealed}
use ppo_se_protocol.Noise.Exchange.{transporting}
use ppo_se_protocol.Udp.{Host, send_to}
use ppo_se_protocol.Session.{io, UdpSession}
use ppo_se_protocol.Session.Framing.{route, unwrap, decode_incoming}
use ppo_se_protocol.Session.Link.{send_inner, transmit, routed, draw_layers, wire_of}
use ppo_se_protocol.Session.Transfer.{seal_and_send, opened, handle_packet, handle_incoming}

-- A DATA datagram.
abbrev pub data_datagram : List ℕ → List ℕ
data_datagram body = encode_outer data_packet 0 ++ body

module _ {snow : Snow} where
  -- The session on a direct path, with a Noise session; and with one in transport mode.
  abbrev pub on_path : NoiseSession snow → UdpSession snow → UdpSession snow
  on_path state s = record s { via_relay = false; onion = none; noise = state }

  abbrev pub directly : snow.TransportState → UdpSession snow → UdpSession snow
  directly ts s = on_path (transporting snow ts) s

  -- The session after a datagram has gone out to its next hop.
  abbrev pub having_sent : PacketType → List ℕ → UdpSession snow → UdpSession snow
  having_sent ty message s = record s {
    sock = record s.sock {
      sends = suc s.sock.sends;
      layers = s.sock.layers + 0;
      outbox = s.sock.outbox ++ ((encode_outer ty 0 ++ message, s.next_hop) ∷ []);
    };
  }

  module _ (prims : Primitives) (host : Host) where
    pub send_inner-direct :
        (ty : PacketType) (message : List ℕ) (state : NoiseSession snow) (s : UdpSession snow)
        → 8 + length message ≤ max_datagram
        → host.delivers s.sock.sends ≡ true
        → send_inner prims host ty message (on_path state s)
          ≡ (on_path state (having_sent ty message s), ok tt)
    unfolding send_inner wire_of routed transmit route send_to
    send_inner-direct ty message state s fits goes =
        let t = on_path state s in
        let sock = (having_sent ty message s).sock in
        ap (λ o. transmit prims host (routed prims host o t) (draw_layers prims host t))
          (encode_datagram-fits ty message fits)
        ∙ ap
            (λ b.
              put_back (λ (u : UdpSession snow) sock. record u { sock = sock }) io t
                (sock, if b then ok tt else err send_failed))
            goes

    pub seal_and_send-direct :
        (inner message : List ℕ) (ts ts' : snow.TransportState) (s : UdpSession snow)
        → snow.write_transport inner max_datagram ts ≡ (ts', some message)
        → 8 + length message ≤ max_datagram
        → host.delivers s.sock.sends ≡ true
        → seal_and_send prims host inner (directly ts s)
          ≡ (directly ts' (having_sent data_packet message s), ok tt)
    unfolding seal_and_send seal
    seal_and_send-direct inner message ts ts' s w fits goes =
        rw (w) (send_inner-direct data_packet message (transporting snow ts') s fits goes)

    -- What arrives as a DATA datagram is opened.
    pub handle_incoming-direct :
        (message : List ℕ) (ts : snow.TransportState) (s : UdpSession snow)
        → handle_incoming prims host (data_datagram message) (directly ts s)
          ≡ opened prims host
              (open_sealed snow message (length message) (directly ts s).noise)
              (directly ts s)
    unfolding handle_incoming decode_incoming unwrap handle_packet
    handle_incoming-direct message ts s = rw (decode_outer-encode_outer data_packet 0 message) refl
