-- ===== src/Session/Steps.antt =====
-- One message of the handshake on a direct path: sent, received, and the end of the exchange.
use ppo_se_protocol.Common.{
  ℕ, suc, ◌+◌, ◌≤◌, ◌≡◌, refl, ap, ◌∙◌, true, Option, none, some, List, [], ◌++◌, ok, arith, length,
  take_all,
}
use ppo_se_protocol.Common.Action.{and_then, put_back, lift}
use ppo_se_protocol.Wire.{max_datagram, datagram, addr_discrete}
use ppo_se_protocol.Packet.{handshake, encode_outer, same_type}
use ppo_se_protocol.Crypto.{Primitives}
use ppo_se_protocol.Noise.{Snow, NoiseSession, write_handshake, read_handshake}
use ppo_se_protocol.Noise.Exchange.{transporting}
use ppo_se_protocol.Noise.Pin.{pin_remote-HasRemote}
use ppo_se_protocol.Udp.{Host, recv_raw, recv_from, arrival}
use ppo_se_protocol.Session.{io, noise, UdpSession}
use ppo_se_protocol.Session.Framing.{decode_incoming}
use ppo_se_protocol.Session.Link.{recv_inner, read_from, decoded, send_inner}
use ppo_se_protocol.Session.Paths.{decode_incoming-plain}
use ppo_se_protocol.Session.Direct.{on_path, having_sent, send_inner-direct}
use ppo_se_protocol.Session.Handshake.{tell, take_message, hear, settle, pin}

-- A handshake datagram.
abbrev pub handshake_datagram : List ℕ → List ℕ
handshake_datagram body = encode_outer handshake 0 ++ body

-- The remote key that a side pins, if it pins one, is the one of the transport state.
abbrev pub IsPinned : (snow : Snow) → Option (List ℕ) → snow.TransportState → Type 0
IsPinned snow none ts = Unit {0}
IsPinned snow (some key) ts = (snow.get_remote_static ts ≡ some key) × (length key ≡ 32)

module _ {snow : Snow} (prims : Primitives) (host : Host) where
  abbrev pub having_received : UdpSession snow → UdpSession snow
  having_received s = record s { sock = record s.sock { received = suc s.sock.received } }

  pub tell-direct :
      (bytes : List ℕ) (n n' : NoiseSession snow) (s : UdpSession snow)
      → write_handshake snow [] max_datagram n ≡ (n', ok bytes)
      → 8 + length bytes ≤ max_datagram
      → host.delivers s.sock.sends ≡ true
      → tell snow prims host (on_path n s) ≡ (on_path n' (having_sent handshake bytes s), ok tt)
  unfolding tell
  tell-direct bytes n n' s w fits goes =
      ap
        (λ x.
          and_then
            (put_back (λ (u : UdpSession snow) state. record u { noise = state }) noise
              (on_path n s) x)
            (send_inner prims host handshake))
        w
      ∙ send_inner-direct prims host handshake bytes n' s fits goes

  read_from-same :
      {P : Type 0} (d : Dec P)
      → P
      → (raw : List ℕ) (s : UdpSession snow)
      → read_from prims host d raw s ≡ decoded prims host (decode_incoming s.via_relay raw) s
  unfolding read_from
  read_from-same (yes _) p raw s = refl
  read_from-same (no f) p raw s = absurd (f p)

  recv_inner-direct :
      (bytes : List ℕ) (n : NoiseSession snow) (s : UdpSession snow)
      → host.arrivals s.sock.received ≡ datagram (handshake_datagram bytes) s.next_hop
      → 8 + length bytes ≤ max_datagram
      → recv_inner prims host (on_path n s) ≡ (on_path n (having_received s), ok (handshake, bytes))
  unfolding recv_inner recv_raw recv_from decoded encode_outer
  recv_inner-direct bytes n s a fits =
      let t = on_path n (having_received s) in
      ap
        (λ r.
          and_then
            (put_back (λ (u : UdpSession snow) sock. record u { sock = sock }) io (on_path n s)
              (t.sock, arrival max_datagram r))
            (λ (raw, from) u. read_from prims host (addr_discrete from u.next_hop) raw u))
        a
      ∙ ap (λ raw. read_from prims host (addr_discrete s.next_hop s.next_hop) raw t)
          (take_all max_datagram (handshake_datagram bytes) (omega (arith, fits)))
      ∙ read_from-same (addr_discrete s.next_hop s.next_hop) refl (handshake_datagram bytes) t
      ∙ ap (λ o. decoded prims host o t) (decode_incoming-plain handshake bytes)

  pub hear-direct :
      (bytes payload : List ℕ) (n n' : NoiseSession snow) (s : UdpSession snow)
      → host.arrivals s.sock.received ≡ datagram (handshake_datagram bytes) s.next_hop
      → 8 + length bytes ≤ max_datagram
      → read_handshake snow bytes max_datagram n ≡ (n', ok payload)
      → hear snow prims host (on_path n s) ≡ (on_path n' (having_received s), ok tt)
  unfolding hear take_message same_type
  hear-direct bytes payload n n' s a fits r =
      ap (λ x. and_then x (take_message snow prims host)) (recv_inner-direct bytes n s a fits)
      ∙ ap
          (λ x.
            and_then
              (put_back (λ (u : UdpSession snow) state. record u { noise = state }) noise
                (on_path n (having_received s)) x)
              (λ _ u. (u, ok tt)))
          r

  pub settle-direct :
      (expected : Option (List ℕ)) (ts : snow.TransportState) (s : UdpSession snow)
      → IsPinned snow expected ts
      → settle snow prims host expected (on_path (transporting snow ts) s)
        ≡ (on_path (transporting snow ts) s, ok tt)
  unfolding settle pin
  settle-direct none ts s p = refl
  settle-direct (some key) ts s p =
      ap (λ r. lift {S = UdpSession snow} noise r (on_path (transporting snow ts) s))
        (pin_remote-HasRemote snow key (transporting snow ts)
          record { ts = ts; transport = refl; static = p.0; size = p.1 })
