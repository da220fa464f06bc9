-- ===== src/Session/Clock.antt =====
-- Which calls of a session read the clock.
use ppo_se_protocol.Common.{
  ℕ, ◌≡◌, refl, ◌∙◌, Bool, true, false, Option, none, some, List, [], ◌∷◌, Result, ok, err, ltb,
}
use ppo_se_protocol.Common.Action.{Action, lift}
use ppo_se_protocol.Common.Action.Keeps.{
  Preorder, same_view, Keeps, and_then-Keeps, bind-Keeps, lift-Keeps, put_back-Keeps,
}
use ppo_se_protocol.Wire.{SocketAddr, max_datagram, would_block, addr_discrete}
use ppo_se_protocol.Packet.{PacketType, data_packet, PacketError}
use ppo_se_protocol.Crypto.{Primitives}
use ppo_se_protocol.Noise.{Snow, NoiseSession, NoiseError, seal}
use ppo_se_protocol.Arq.Ingest.{ingest}
use ppo_se_protocol.Udp.{Host, send_to}
use ppo_se_protocol.Session.{SessionError, io, noise, arq, UdpSession}
use ppo_se_protocol.Session.Framing.{decode_incoming}
use ppo_se_protocol.Session.Link.{on_noise, learn_peer, send_inner, wire_of, draw_layers, transmit}
use ppo_se_protocol.Session.Transfer.{
  seal_and_send, seal_data, seal_all, answer, opened, handle_packet, handle_incoming, handle_from,
  heard, try_arq, drop_or_seal,
}

-- The clock has not been read in between.
abbrev pub same_clock : (snow : Snow) → Preorder (UdpSession snow)
same_clock snow = same_view (λ s. s.sock.ticks)

-- A method that does not read it.
abbrev pub Timeless : (snow : Snow) {A : Type 0} → Action (UdpSession snow) SessionError A → Type 0
Timeless snow = Keeps (same_clock snow)

module _ {snow : Snow} (prims : Primitives) (host : Host) where
  transmit-Timeless : (r : Result PacketError (List ℕ)) → Timeless snow (transmit prims host r)
  unfolding transmit send_to
  transmit-Timeless (err e) s = refl
  transmit-Timeless (ok wire) s =
      put_back-Keeps (same_clock snow) (λ s sock. record s { sock = sock }) io s
        (send_to host wire s.next_hop s.sock) refl

  pub send_inner-Timeless :
      (ty : PacketType) (body : List ℕ) → Timeless snow (send_inner prims host ty body)
  unfolding send_inner
  send_inner-Timeless ty body s =
      transmit-Timeless (wire_of prims host ty body s) (draw_layers prims host s)

  seal_and_send-Timeless : (inner : List ℕ) → Timeless snow (seal_and_send prims host inner)
  unfolding seal_and_send
  seal_and_send-Timeless inner s =
      and_then-Keeps (same_clock snow) s (on_noise (seal snow inner max_datagram) s)
        (send_inner prims host data_packet)
        (put_back-Keeps (same_clock snow) (λ s state. record s { noise = state }) noise s
          (seal snow inner max_datagram s.noise) refl)
        (send_inner-Timeless data_packet)

  drop_or_seal-Timeless :
      (b : Bool) (inner : List ℕ) → Timeless snow (drop_or_seal prims host b inner)
  unfolding drop_or_seal
  drop_or_seal-Timeless true inner s = refl
  drop_or_seal-Timeless false inner s = seal_and_send-Timeless inner s

  seal_data-Timeless : (inner : List ℕ) → Timeless snow (seal_data prims host inner)
  unfolding seal_data
  seal_data-Timeless inner s = drop_or_seal-Timeless (ltb 0 s.drop_data) inner s

  pub seal_all-Timeless : (pts : List (List ℕ)) → Timeless snow (seal_all prims host pts)
  unfolding seal_all
  seal_all-Timeless [] s = refl
  seal_all-Timeless (pt ∷ pts) s =
      bind-Keeps (same_clock snow) (seal_data prims host pt) (λ _. seal_all prims host pts)
        (seal_data-Timeless pt) (λ _. seal_all-Timeless pts) s

  answer-Timeless : (reply : Option (List ℕ)) → Timeless snow (answer prims host reply)
  unfolding answer
  answer-Timeless none s = refl
  answer-Timeless (some reply) s = seal_and_send-Timeless reply s

  opened-Timeless :
      (x : NoiseSession snow × Result NoiseError (List ℕ)) → Timeless snow (opened prims host x)
  unfolding opened
  opened-Timeless (state, err e) s = refl
  opened-Timeless (state, ok out) s =
      let t = record s { noise = state } in
      and_then-Keeps (same_clock snow) t (try_arq arq (ingest out) t) (answer prims host)
        (put_back-Keeps (same_clock snow) (λ s a. record s { arq = a }) arq t (ingest out s.arq)
          refl)
        answer-Timeless

  handle_packet-Timeless :
      (ty : PacketType) (body : List ℕ) → Timeless snow (handle_packet prims host ty body)
  unfolding handle_packet
  handle_packet-Timeless data_packet body s = opened-Timeless _ s
  handle_packet-Timeless _ body s = refl

  learn_peer-Timeless :
      (other : Option SocketAddr) (s : UdpSession snow)
      → (learn_peer other s).sock.ticks ≡ s.sock.ticks
  learn_peer-Timeless none s = refl
  learn_peer-Timeless (some other) s = refl

  handle_incoming-Timeless : (raw : List ℕ) → Timeless snow (handle_incoming prims host raw)
  unfolding handle_incoming
  handle_incoming-Timeless raw s =
      and_then-Keeps (same_clock snow) s (lift (λ e. e) (decode_incoming s.via_relay raw) s)
        (λ (ty, body, other) t. handle_packet prims host ty body (learn_peer other t))
        (lift-Keeps (same_clock snow) (λ e. e) (decode_incoming s.via_relay raw) s)
        (λ (ty, body, other) t.
          handle_packet-Timeless ty body (learn_peer other t) ∙ learn_peer-Timeless other t)

  handle_from-Timeless :
      {P : Type 0} (d : Dec P) (raw : List ℕ) → Timeless snow (handle_from prims host d raw)
  unfolding handle_from
  handle_from-Timeless (no _) raw s = refl
  handle_from-Timeless (yes _) raw s = handle_incoming-Timeless raw s

  pub heard-Timeless :
      (x : UdpSession snow × Result SessionError (List ℕ × SocketAddr))
      → (heard prims host x).0.sock.ticks ≡ x.0.sock.ticks
  unfolding heard
  heard-Timeless (s, err (io would_block)) = refl
  heard-Timeless (s, err e) = refl
  heard-Timeless (s, ok (raw, from)) = handle_from-Timeless (addr_discrete from s.next_hop) raw s
