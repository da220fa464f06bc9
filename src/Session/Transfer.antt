-- ===== src/Session/Transfer.antt =====
-- session.rs: the data phase. `recv` and `wait_acked` are loops on fuel, a unit for each pass.
use ppo_se_protocol.Common.{
  ℕ, Bool, ◌-◌, true, false, Option, none, some, List, [], ◌∷◌, Result, ok, err, ltb, length,
}
use ppo_se_protocol.Common.Action.{Action, ◌>>=◌, ◌>>◌, pure, gets, modify, lift, on}
use ppo_se_protocol.Wire.{SocketAddr, max_datagram, would_block, addr_discrete}
use ppo_se_protocol.Packet.{PacketType, data_packet}
use ppo_se_protocol.Crypto.{Primitives}
use ppo_se_protocol.Noise.{Snow, NoiseSession, NoiseError, seal, open_sealed}
use ppo_se_protocol.Cover.{CoverMode, interval, payload_len}
use ppo_se_protocol.Arq.{Arq}
use ppo_se_protocol.Arq.Send.{take_new_sends, take_retransmits, set_retx}
use ppo_se_protocol.Arq.Ingest.{ingest}
use ppo_se_protocol.Udp.{Host, tick, instant_now, fill_bytes}
use ppo_se_protocol.Session.{SessionError, io, arq, give_up, unexpected_type, UdpSession}
use ppo_se_protocol.Session.Framing.{decode_incoming}
use ppo_se_protocol.Session.Link.{on_sock, on_noise, learn_peer, send_inner}

module _ {snow : Snow} where
  abbrev pub debug_drop_data : ℕ → UdpSession snow → UdpSession snow
  debug_drop_data n s = record s { drop_data = n }

  abbrev pub set_retx_timeout : ℕ → UdpSession snow → UdpSession snow
  set_retx_timeout d s = record s { arq = set_retx d s.arq }

  -- An operation of the ARQ that cannot fail, and one that can.
  abbrev pub on_arq : {A : Type 0} → (Arq → Arq × A) → Action (UdpSession snow) SessionError A
  on_arq m s = let (a, x) = m s.arq in (record s { arq = a }, ok x)

  abbrev pub try_arq :
      {F A : Type 0} → (F → SessionError) → Action Arq F A → Action (UdpSession snow) SessionError A
  try_arq = on (λ s. s.arq) (λ s a. record s { arq = a })

  module _ (prims : Primitives) (host : Host) where
    unfoldable pub set_cover : CoverMode → Action (UdpSession snow) SessionError (Unit {0})
    unfolding instant_now
    set_cover mode = do
      modify (λ s. record s { cover = mode })
      now ← on_sock (instant_now host)
      modify (λ s. record s { last_cover = now })

    -- `seal_data` past the test of `drop_data`, which is also how an ACK goes out.
    unfoldable pub seal_and_send : List ℕ → Action (UdpSession snow) SessionError (Unit {0})
    unfolding seal send_inner
    seal_and_send inner = do
      sealed ← on_noise (seal snow inner max_datagram)
      send_inner prims host data_packet sealed

    unfoldable pub drop_or_seal : Bool → List ℕ → Action (UdpSession snow) SessionError (Unit {0})
    unfolding seal_and_send
    drop_or_seal true inner s = (record s { drop_data = s.drop_data - 1 }, ok tt)
    drop_or_seal false inner s = seal_and_send inner s

    unfoldable pub seal_data : List ℕ → Action (UdpSession snow) SessionError (Unit {0})
    unfolding drop_or_seal
    seal_data inner s = drop_or_seal (ltb 0 s.drop_data) inner s

    unfoldable pub seal_all : List (List ℕ) → Action (UdpSession snow) SessionError (Unit {0})
    unfolding seal_data
    seal_all [] = pure tt
    seal_all (pt ∷ pts) = do seal_data pt; seal_all pts

    unfoldable pub flush : Action (UdpSession snow) SessionError (Unit {0})
    unfolding instant_now seal_all take_new_sends take_retransmits
    flush = do
      now ← on_sock (instant_now host)
      news ← on_arq (take_new_sends now)
      seal_all news
      retrx ← try_arq give_up (take_retransmits now)
      seal_all retrx

    -- `maybe_cover` past the test of the time: a random body of the fixed length.
    unfoldable pub send_cover : ℕ → Action (UdpSession snow) SessionError (Unit {0})
    unfolding fill_bytes send_inner
    send_cover now = do
      modify (λ s. record s { last_cover = now })
      mode ← gets (λ s. s.cover)
      body ← on_sock (fill_bytes host (payload_len mode))
      send_inner prims host data_packet body

    unfoldable pub cover_unless : Bool → ℕ → Action (UdpSession snow) SessionError (Unit {0})
    unfolding send_cover
    cover_unless true now s = (s, ok tt)
    cover_unless false now s = send_cover now s

    unfoldable pub cover_every : Option ℕ → Action (UdpSession snow) SessionError (Unit {0})
    unfolding instant_now cover_unless
    cover_every none s = (s, ok tt)
    cover_every (some pause) s =
        let now = host.clock s.sock.ticks in
        cover_unless (ltb (now - s.last_cover) pause) now record s { sock = tick s.sock }

    unfoldable pub maybe_cover : Action (UdpSession snow) SessionError (Unit {0})
    unfolding cover_every
    maybe_cover s = cover_every (interval s.cover) s

    -- The end of `handle_incoming`: an ACK goes out when the ARQ asks for one.
    unfoldable pub answer : Option (List ℕ) → Action (UdpSession snow) SessionError (Unit {0})
    unfolding seal_and_send
    answer none = pure tt
    answer (some reply) = seal_and_send reply

    -- `let Ok(n) = self.noise.open(..) else { return Ok(()) }` and what follows.
    unfoldable pub opened :
        NoiseSession snow × Result NoiseError (List ℕ)
        → Action (UdpSession snow) SessionError (Unit {0})
    unfolding ingest answer
    opened (state, err e) s = (record s { noise = state }, ok tt)
    opened (state, ok out) s =
        (do reply ← try_arq arq (ingest out); answer reply) record s { noise = state }

    -- The match on the type of the packet.
    unfoldable pub handle_packet :
        PacketType → List ℕ → Action (UdpSession snow) SessionError (Unit {0})
    unfolding opened open_sealed
    handle_packet data_packet body s = opened (open_sealed snow body (length body) s.noise) s
    handle_packet _ body s = (s, err unexpected_type)

    unfoldable pub handle_incoming : List ℕ → Action (UdpSession snow) SessionError (Unit {0})
    unfolding handle_packet decode_incoming
    handle_incoming raw = do
      relayed ← gets (λ s. s.via_relay)
      (ty, body, other) ← lift (λ e. e) (decode_incoming relayed raw)
      modify (learn_peer other)
      handle_packet ty body

    -- `if from != self.next_hop { continue; }`
    unfoldable pub handle_from :
        {P : Type 0} → Dec P → List ℕ → Action (UdpSession snow) SessionError (Unit {0})
    unfolding handle_incoming
    handle_from (no _) raw s = (s, ok tt)
    handle_from (yes _) raw s = handle_incoming raw s

    -- The match on `recv_raw` that ends each pass of a loop.
    unfoldable pub heard :
        UdpSession snow × Result SessionError (List ℕ × SocketAddr)
        → UdpSession snow × Result SessionError (Unit {0})
    unfolding handle_from
    heard (s, err (io would_block)) = (s, ok tt)
    heard (s, err e) = (s, err e)
    heard (s, ok (raw, from)) = handle_from (addr_discrete from s.next_hop) raw s
