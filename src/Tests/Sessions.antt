-- ===== src/Tests/Sessions.antt =====
-- Runs of the data phase of session.rs.
use ppo_se_protocol.Common.{
  ℕ, suc, ◌+◌, ◌*◌, ◌-◌, ◌≤◌, ◌≡◌, refl, true, false, Option, none, some, List, [], ◌∷◌, ◌++◌, ◌⊎◌,
  Result, ok, err, length, drop, map, replicate, All, arith,
}
use ppo_se_protocol.Wire.{max_datagram, SocketAddr, v4, datagram, sends, IsAddr}
use ppo_se_protocol.Packet.{data_packet, forward, encode_outer, encode_datagram, decode_outer}
use ppo_se_protocol.Forward.{decode_forward_body}
use ppo_se_protocol.Replay.{ReplayCache, accept}
use ppo_se_protocol.Relay.{Relay, step}
use ppo_se_protocol.Onion.Route.{Keeper, hop_of}
use ppo_se_protocol.Onion.Delivery.{deliver}
use ppo_se_protocol.Noise.{open_sealed, crypto}
use ppo_se_protocol.Arq.{Arq, Outgoing}
use ppo_se_protocol.Arq.Send.{take_new_sends, take_retransmits}
use ppo_se_protocol.Frame.{encode_ack}
use ppo_se_protocol.Udp.{tick, Host}
use ppo_se_protocol.Session.{SessionError, UdpSession}
use ppo_se_protocol.Session.Framing.{decode_incoming}
use ppo_se_protocol.Session.Link.{send_inner}
use ppo_se_protocol.Session.Transfer.{seal_all, flush, handle_incoming}
use ppo_se_protocol.Session.Loops.{recv, send_timeout}
use ppo_se_protocol.Session.Direct.{data_datagram, directly}
use ppo_se_protocol.Session.Loss.{seal_all-lost}
use ppo_se_protocol.Session.Flush.{Sealing, flush_lem}
use ppo_se_protocol.Session.Channel.{ingest_all, replies}
use ppo_se_protocol.Session.Round.{InStep, Round, flush-Round}
use ppo_se_protocol.Session.Delivery.{flush-acknowledged}
use ppo_se_protocol.Arq.Send.{enqueue}
use ppo_se_protocol.Tests.Reliability.{
  long_message, length-long_message, long_message-parts, start-IsWindow, start_received,
}
use ppo_se_protocol.Common.Table.{get}
use ppo_se_protocol.Session.Incoming.{Ignored, Ingested, handle_incoming-cases}
use ppo_se_protocol.Session.Redirect.{redirected, handle_incoming-redirects}
use ppo_se_protocol.Session.Paths.{Sends, send_inner-relayed, send_inner-onion}
use ppo_se_protocol.Session.Termination.{recv-returns, send_timeout-returns}
use ppo_se_protocol.Session.Outcome.{send_timeout-ok}
use ppo_se_protocol.Tests.Toys.{toy, zeros, toy_ordered, Pipe, quiet_host, pipe, session}
use ppo_se_protocol.Tests.Onions.{sound, sound-IsSound}

-- Two frames are sent when the receiver has missed one.
seal_all-lost_example :
    (a' : Pipe) × (s' : UdpSession toy) × (datagrams : List (List ℕ × SocketAddr)) × (seal_all sound
        quiet_host
        ((1 ∷ []) ∷ (2 ∷ []) ∷ [])
        (directly (pipe 1 0) session)
      ≡ (directly a' s', ok tt))
    × (s'.sock.outbox ≡ session.sock.outbox ++ datagrams)
    × All
        (λ d.
          handle_incoming sound quiet_host d.0 (directly (pipe 0 0) session)
          ≡ (directly (pipe 0 0) session, ok tt))
        datagrams
seal_all-lost_example =
    seal_all-lost sound quiet_host toy_ordered ((1 ∷ []) ∷ (2 ∷ []) ∷ []) (pipe 1 0) (pipe 0 0)
      session session (λ i. refl) refl (omega arith) (omega arith, (omega arith, tt))

-- One frame is new and one is due again; the first of them is to be dropped.
abbrev waiting : Arq
waiting = record ppo_se_protocol.Arq.new {
  next_seq = 2;
  unacked =
      (0, record { plaintext = 5 ∷ []; last_sent = some 0; attempts = 1 })
      ∷ (1, record { plaintext = 6 ∷ []; last_sent = none; attempts = 0 })
      ∷ [];
}

abbrev lossy : UdpSession toy
lossy = record session { sock = record session.sock { ticks = 30 }; arq = waiting; drop_data = 1 }

abbrev renewed : Arq
renewed = record waiting {
  unacked =
      (0, record { plaintext = 5 ∷ []; last_sent = some 0; attempts = 1 })
      ∷ (1, record { plaintext = 6 ∷ []; last_sent = some 300; attempts = 1 })
      ∷ [];
}

abbrev resent : Arq
resent = record waiting {
  unacked =
      (0, record { plaintext = 5 ∷ []; last_sent = some 300; attempts = 2 })
      ∷ (1, record { plaintext = 6 ∷ []; last_sent = some 300; attempts = 1 })
      ∷ [];
}

one_new : take_new_sends 300 waiting ≡ (renewed, (6 ∷ []) ∷ [])
unfolding take_new_sends
one_new = refl

one_due : take_retransmits 300 renewed ≡ (resent, ok ((5 ∷ []) ∷ []))
unfolding take_retransmits
one_due = refl

flush_lem_example :
    Sealing sound quiet_host toy_ordered
      (pipe 0 0)
      ((5 ∷ []) ∷ [])
      0
      (pipe 4 0)
      record lossy { sock = tick lossy.sock; arq = resent }
      (flush sound quiet_host (directly (pipe 4 0) lossy))
flush_lem_example =
    flush_lem sound quiet_host toy_ordered (pipe 0 0) (λ i. refl) (pipe 4 0) lossy renewed resent
      ((6 ∷ []) ∷ []) ((5 ∷ []) ∷ []) refl one_new one_due (omega arith, tt) (omega arith, tt)

abbrev kept : UdpSession toy
kept = record lossy { drop_data = 0 }

pipes-InStep : (m : ℕ) → InStep toy_ordered (pipe m 0) (pipe 0 m)
pipes-InStep m = record { forth = refl; back = refl; forth_meets = refl; back_meets = refl }

flush-Round_example :
    (w : Round sound quiet_host quiet_host toy_ordered (pipe 4 0) (pipe 0 4) kept session)
    × (w.r'.arq ≡ ingest_all ((6 ∷ []) ∷ (5 ∷ []) ∷ []) session.arq)
    × (w.s''.arq ≡ ingest_all (replies ((6 ∷ []) ∷ (5 ∷ []) ∷ []) session.arq) resent)
flush-Round_example =
    flush-Round sound quiet_host quiet_host toy_ordered (pipe 4 0) (pipe 0 4) kept session renewed
      resent ((6 ∷ []) ∷ []) ((5 ∷ []) ∷ []) (λ i. refl) (λ i. refl) (pipes-InStep 4) refl one_new
      one_due (omega arith, tt) (omega arith, tt)

abbrev queued : UdpSession toy
queued = record session { arq = (enqueue long_message session.arq).0 }

flush-acknowledged_example :
    (w : Round sound quiet_host quiet_host toy_ordered (pipe 0 0) (pipe 0 0) queued session)
    × (w.r'.arq.delivered ≡ [] ++ (long_message ∷ []))
    × (w.s''.arq.unacked ≡ [])
unfolding get
flush-acknowledged_example =
    flush-acknowledged sound quiet_host quiet_host toy_ordered (pipe 0 0) (pipe 0 0) session session
      long_message 0 (λ i. refl) (λ i. refl) (pipes-InStep 0) refl (λ e. cc e)
      (omega (arith, length-long_message)) refl (omega arith) (omega arith)
      (omega (arith, long_message-parts)) start-IsWindow (omega (arith, long_message-parts))
      (λ i lt. start_received (0 + i)) refl

handle_incoming-cases_example :
    let raw = data_datagram (0 ∷ (replicate 15 0 ++ (1 ∷ []))) in
    Ignored sound quiet_host session (handle_incoming sound quiet_host raw session).0
    ⊎ Ingested sound quiet_host raw session (handle_incoming sound quiet_host raw session).0
handle_incoming-cases_example =
    handle_incoming-cases sound quiet_host (data_datagram (0 ∷ (replicate 15 0 ++ (1 ∷ []))))
      session

-- A wrapper that names 10.6.6.6, around a packet that does not open.
abbrev forged : List ℕ
forged =
    encode_outer forward 0 ++ (10 ∷ 6 ∷ 6 ∷ 6 ∷ 1 ∷ 0 ∷ (encode_outer data_packet 0 ++ (99 ∷ [])))

abbrev behind_relay : UdpSession toy
behind_relay = record session { peer = v4 10 0 0 7 300; via_relay = true }

forged_decodes : decode_incoming true forged ≡ ok (data_packet, 99 ∷ [], some (v4 10 6 6 6 256))
unfolding decode_incoming encode_outer
forged_decodes = refl

forged_refused : (open_sealed toy (99 ∷ []) 1 behind_relay.noise).1 ≡ err crypto
unfolding open_sealed
forged_refused = refl

redirected_sends :
    (send_inner sound quiet_host data_packet
      (1 ∷ [])
      (redirected sound quiet_host (99 ∷ []) (v4 10 6 6 6 256) behind_relay)).1
    ≡ ok tt
unfolding send_inner open_sealed
redirected_sends = refl

handle_incoming-redirects_example :
    (handle_incoming sound quiet_host forged behind_relay
      ≡ (redirected sound quiet_host (99 ∷ []) (v4 10 6 6 6 256) behind_relay, ok tt))
    × (wire fb inner : List ℕ) × ((send_inner sound quiet_host data_packet
          (1 ∷ [])
          (handle_incoming sound quiet_host forged behind_relay).0).0.sock.outbox
        ≡ (wire, v4 127 0 0 1 4000) ∷ [])
    × (encode_datagram data_packet (1 ∷ []) ≡ ok inner)
    × (decode_outer wire ≡ ok (forward, 0, fb))
    × (decode_forward_body fb ≡ ok (v4 10 6 6 6 256, inner))
handle_incoming-redirects_example =
    handle_incoming-redirects sound quiet_host forged (99 ∷ []) (1 ∷ []) data_packet
      (v4 10 6 6 6 256) crypto behind_relay refl refl
      (omega arith, omega arith, omega arith, omega arith, omega arith) forged_decodes
      forged_refused redirected_sends

-- The inner datagram of one byte, and a relay that has not seen it.
abbrev small : List ℕ
small = 74 ∷ 127 ∷ 3 ∷ 2 ∷ 0 ∷ 0 ∷ 0 ∷ 0 ∷ 1 ∷ []

encode_small : encode_datagram data_packet (1 ∷ []) ≡ ok small
unfolding encode_datagram
encode_small = refl

abbrev empty_relay : Relay
empty_relay = record { replay = record { seen = []; ttl = 100; cap = 2 } }

abbrev kept_cache : ReplayCache
kept_cache = record { seen = (small, 5) ∷ []; ttl = 100; cap = 2 }

small_accepted : accept (λ xs. xs) small 5 empty_relay.replay ≡ (kept_cache, true)
unfolding accept
small_accepted = refl

relayed_sends : (send_inner sound quiet_host data_packet (1 ∷ []) behind_relay).1 ≡ ok tt
unfolding send_inner
relayed_sends = refl

send_inner-relayed_example :
    (wire pkt : List ℕ) × Sends sound quiet_host wire behind_relay
      (send_inner sound quiet_host data_packet (1 ∷ []) behind_relay).0
    × (step (λ xs. xs) (datagram wire (v4 127 0 0 1 9000)) 5 true empty_relay
        ≡ sends record { replay = kept_cache } true pkt (v4 10 0 0 7 300))
    × (decode_incoming true pkt ≡ ok (data_packet, 1 ∷ [], some (v4 127 0 0 1 9000)))
send_inner-relayed_example =
    send_inner-relayed sound quiet_host data_packet (1 ∷ []) small behind_relay 127 0 0 1 9000
      (λ xs. xs) 5 true empty_relay kept_cache refl refl
      (omega arith, omega arith, omega arith, omega arith, omega arith)
      (omega arith, omega arith, omega arith, omega arith, omega arith) encode_small small_accepted
      relayed_sends

abbrev keeper : Keeper
keeper = record { addr = v4 10 0 0 1 256; secret = 1 ∷ [] }

abbrev behind_onion : UdpSession toy
behind_onion = record session {
  peer = v4 10 0 0 7 300;
  onion = some (map (hop_of sound) (keeper ∷ []));
}

onion_sends : (send_inner sound quiet_host data_packet (1 ∷ []) behind_onion).1 ≡ ok tt
unfolding send_inner
onion_sends = refl

send_inner-onion_example :
    (wire inner : List ℕ) × Sends sound quiet_host wire behind_onion
      (send_inner sound quiet_host data_packet (1 ∷ []) behind_onion).0
    × (deliver sound (v4 127 0 0 1 9000) 5 (map (λ k. k.secret) (keeper ∷ [])) wire
        ≡ some (v4 10 0 0 7 300 ∷ [], inner))
    × (decode_incoming false inner ≡ ok (data_packet, 1 ∷ [], none))
send_inner-onion_example =
    send_inner-onion sound quiet_host data_packet (1 ∷ []) behind_onion keeper []
      (v4 127 0 0 1 9000) 5 sound-IsSound (λ j. refl) refl
      (omega arith, omega arith, omega arith, omega arith, omega arith)
      ((omega arith, omega arith, omega arith, omega arith, omega arith), tt) onion_sends

-- The clock is past 20 milliseconds at its reading number 2.
recv-returns_example :
    (z : UdpSession toy × Result SessionError (List ℕ)) × (recv sound quiet_host 3 20 session
      ≡ some z)
recv-returns_example =
    recv-returns sound quiet_host session 20 2 (λ i j h. omega arith) (omega arith)

send_timeout-returns_example :
    (z : UdpSession toy × Result SessionError (Unit {0})) × (send_timeout sound quiet_host 3
        (1 ∷ [])
        20
        session
      ≡ some z)
send_timeout-returns_example =
    send_timeout-returns sound quiet_host (1 ∷ []) session 20 2 (λ i j h. omega arith) (omega arith)

-- The first datagram that arrives acknowledges the frame with number 0.
abbrev acking_host : Host
acking_host = record quiet_host {
  arrivals = λ i. datagram (data_datagram (0 ∷ (zeros ++ encode_ack 1 0))) (v4 127 0 0 1 4000);
}

abbrev state_of : Option (UdpSession toy × Result SessionError (Unit {0})) → UdpSession toy
state_of none = session
state_of (some (s, r)) = s

acked_run :
    send_timeout sound acking_host 2 (1 ∷ []) 40 session
    ≡ some (state_of (send_timeout sound acking_host 2 (1 ∷ []) 40 session), ok tt)
unfolding send_timeout encode_ack ppo_se_protocol.Arq.Send.chunks
    ppo_se_protocol.Arq.Send.enqueue_loop ppo_se_protocol.Common.Table.insert_sorted
    ppo_se_protocol.Frame.encode_data ppo_se_protocol.Wire.addr_discrete
    ppo_se_protocol.Common.ℕ_discrete ppo_se_protocol.Frame.decode_inner
acked_run = refl

send_timeout-ok_example :
    (state_of (send_timeout sound acking_host 2 (1 ∷ []) 40 session)).arq.unacked ≡ []
send_timeout-ok_example =
    send_timeout-ok sound acking_host 2 (1 ∷ []) 40 session
      (state_of (send_timeout sound acking_host 2 (1 ∷ []) 40 session)) acked_run
