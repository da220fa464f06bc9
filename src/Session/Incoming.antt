-- ===== src/Session/Incoming.antt =====
-- What `handle_incoming` can do to a session.
use ppo_se_protocol.Common.{
  ℕ, ◌≡◌, refl, ap, sym, ◌∙◌, ◌⊎◌, inl, inr, Option, none, some, List, Result, ok, err, length,
}
use ppo_se_protocol.Common.Action.{and_then, lift, put_back, put_back-state}
use ppo_se_protocol.Wire.{max_datagram, SocketAddr}
use ppo_se_protocol.Packet.{PacketType, data_packet, PacketError}
use ppo_se_protocol.Crypto.{Primitives}
use ppo_se_protocol.Noise.{Snow, NoiseSession, NoiseError, seal, open_sealed}
use ppo_se_protocol.Arq.{Arq, ArqError}
use ppo_se_protocol.Arq.Ingest.{ingest}
use ppo_se_protocol.Udp.{Host, send_to}
use ppo_se_protocol.Session.{SessionError, io, noise, arq, UdpSession}
use ppo_se_protocol.Session.Framing.{decode_incoming}
use ppo_se_protocol.Session.Link.{learn_peer, send_inner, transmit, wire_of, draw_layers}
use ppo_se_protocol.Session.Transfer.{seal_and_send, answer, opened, handle_packet, handle_incoming}

module _ {snow : Snow} (prims : Primitives) (host : Host) where
  -- Nothing was sent, and the ARQ is as before.
  abbrev pub Ignored : UdpSession snow → UdpSession snow → Type 0
  Ignored s t = (t.arq ≡ s.arq) × (t.sock ≡ s.sock)

  -- The datagram was a DATA packet that opened, and the ARQ has ingested the text.
  pub record Ingested (raw : List ℕ) (s t : UdpSession snow) : Type 0 where
    pub body : List ℕ
    pub other : Option SocketAddr
    pub text : List ℕ
    pub is_data : decode_incoming s.via_relay raw ≡ ok (data_packet, body, other)
    pub opens : (open_sealed snow body (length body) s.noise).1 ≡ ok text
    pub ingested : t.arq ≡ (ingest text s.arq).0

  -- Sending leaves the ARQ alone.
  transmit_arq :
      (r : Result PacketError (List ℕ)) (s : UdpSession snow)
      → (transmit prims host r s).0.arq ≡ s.arq
  unfolding transmit
  transmit_arq (err e) s = refl
  transmit_arq (ok wire) s =
      ap (λ (t : UdpSession snow). t.arq)
        (put_back-state (λ (s : UdpSession snow) sock. record s { sock = sock }) io s
          (send_to host wire s.next_hop s.sock))

  sealed_arq :
      (x : NoiseSession snow × Result NoiseError (List ℕ)) (s : UdpSession snow)
      → (and_then
          (put_back (λ (s : UdpSession snow) n. record s { noise = n }) noise s x)
          (send_inner prims host data_packet)).0.arq
        ≡ s.arq
  unfolding send_inner
  sealed_arq (n, err e) s = refl
  sealed_arq (n, ok sealed) s =
      let t = record s { noise = n } in
      transmit_arq (wire_of prims host data_packet sealed t) (draw_layers prims host t)

  answer_arq :
      (reply : Option (List ℕ)) (s : UdpSession snow) → (answer prims host reply s).0.arq ≡ s.arq
  unfolding answer seal_and_send
  answer_arq none s = refl
  answer_arq (some reply) s = sealed_arq (seal snow reply max_datagram s.noise) s

  answered_arq :
      (x : Arq × Result ArqError (Option (List ℕ))) (s : UdpSession snow)
      → (and_then
          (put_back (λ (s : UdpSession snow) a. record s { arq = a }) arq s x)
          (answer prims host)).0.arq
        ≡ x.0
  answered_arq (a, err e) s = refl
  answered_arq (a, ok reply) s = answer_arq reply record s { arq = a }

  opened-cases :
      (x : NoiseSession snow × Result NoiseError (List ℕ)) (s : UdpSession snow)
      → Ignored s (opened prims host x s).0
        ⊎ ((text : List ℕ) × (x.1 ≡ ok text)
            × ((opened prims host x s).0.arq ≡ (ingest text s.arq).0))
  unfolding opened
  opened-cases (n, err e) s = inl (refl, refl)
  opened-cases (n, ok text) s =
      inr (text, refl, answered_arq (ingest text s.arq) record s { noise = n })

  learn_peer-view :
      (other : Option SocketAddr) (s : UdpSession snow)
      → ((learn_peer other s).arq ≡ s.arq)
        × ((learn_peer other s).sock ≡ s.sock)
        × ((learn_peer other s).noise ≡ s.noise)
  learn_peer-view none s = (refl, refl, refl)
  learn_peer-view (some other) s = (refl, refl, refl)

  -- `handle_incoming` from the decoded packet on.
  abbrev handled :
      Result SessionError (PacketType × List ℕ × Option SocketAddr)
      → UdpSession snow
      → UdpSession snow × Result SessionError (Unit {0})
  handled d s =
      and_then (lift (λ e. e) d s)
        (λ (ty, body, other) t. handle_packet prims host ty body (learn_peer other t))

  handled-cases :
      (raw : List ℕ) (d : Result SessionError (PacketType × List ℕ × Option SocketAddr))
      (s : UdpSession snow)
      → decode_incoming s.via_relay raw ≡ d
      → Ignored s (handled d s).0 ⊎ Ingested raw s (handled d s).0
  unfolding handle_packet
  handled-cases raw (err e) s h = inl (refl, refl)
  handled-cases raw (ok (data_packet, body, other)) s h =
      let t = learn_peer other s in
      let (same_arq, same_sock, same_noise) = learn_peer-view other s in
      elim (opened-cases (open_sealed snow body (length body) t.noise) t) [
        | inl i ↦ inl (i.0 ∙ same_arq, i.1 ∙ same_sock)
        | inr (text, opens, ingests) ↦ inr record {
          body = body;
          other = other;
          text = text;
          is_data = h;
          opens = ap (λ n. (open_sealed snow body (length body) n).1) (sym same_noise) ∙ opens;
          ingested = ingests ∙ ap (λ a. (ingest text a).0) same_arq;
        }
      ]
  handled-cases raw (ok (_, body, other)) s h =
      let (same_arq, same_sock, same_noise) = learn_peer-view other s in inl (same_arq, same_sock)

  -- Whatever arrives: either nothing is sent and the ARQ stays as it is, or the datagram was a DATA
  -- packet whose body the Noise session opens, and the ARQ is the one that has ingested what was in it.
  pub handle_incoming-cases :
      (raw : List ℕ) (s : UdpSession snow)
      → Ignored s (handle_incoming prims host raw s).0
        ⊎ Ingested raw s (handle_incoming prims host raw s).0
  unfolding handle_incoming
  handle_incoming-cases raw s = handled-cases raw (decode_incoming s.via_relay raw) s refl
