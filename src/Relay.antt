-- ===== src/Relay.antt =====
-- relay.rs: the packet forwarder. The hash of the replay cache is a parameter; what the socket
-- receives, the clock, and whether `send_to` succeeds are inputs of a step.
pub mod Laws
pub mod Replays
use ppo_se_protocol.Common.{
  ℕ, Bool, true, false, List, [], ◌∷◌, ◌++◌, Result, ok, err, if◌then◌else◌, take,
}
use ppo_se_protocol.Wire.{
  max_datagram, SocketAddr, IoError, recv_failed, Received, timed_out, failed, datagram, NodeStep,
  quiet, sends,
}
use ppo_se_protocol.Packet.{PacketType, forward, PacketError, encode_outer, decode_outer, same_type}
use ppo_se_protocol.Forward.{encode_forward_body, decode_forward_body}
use ppo_se_protocol.Replay.{ReplayCache, accept}

pub record Relay : Type 0 where
  pub replay : ReplayCache

abbrev pub new : Relay
new = record { replay = ppo_se_protocol.Replay.new }

-- The end of `step`, after `encode_forward_body(from, inner)`.
unfoldable pub send_on : Result PacketError (List ℕ) → SocketAddr → Bool → Relay → NodeStep Relay
unfolding encode_outer
send_on (err e) dest delivered r = quiet r
send_on (ok out_body) dest delivered r = sends r delivered (encode_outer forward 0 ++ out_body) dest

-- After `replay.accept`.
unfoldable pub forward_new :
    ReplayCache × Bool → SocketAddr → SocketAddr → List ℕ → Bool → NodeStep Relay
unfolding send_on encode_forward_body
forward_new (c, false) from dest inner delivered = quiet record { replay = c }
forward_new (c, true) from dest inner delivered =
    send_on (encode_forward_body from inner) dest delivered record { replay = c }

-- One turn of the loop: what the socket received, the clock, and whether sending succeeds.
pub record Turn : Type 0 where
  pub received : Received
  pub at : ℕ
  pub delivered : Bool

-- What the loop has sent when it ends, and whether a system call failed.
pub record Run : Type 0 where
  pub state : Relay
  pub sent : List (List ℕ × SocketAddr)
  pub result : Result IoError (Unit {0})

-- The end of a turn: `?`, and the loop on the state behind it.
unfoldable pub go_on : Relay → List (List ℕ × SocketAddr) → Result IoError Bool → Run → Run
go_on r packets (err e) rest = record { state = r; sent = packets; result = err e }
go_on r packets (ok _) rest = record rest { sent = packets ++ rest.sent }

module _ (hash : List ℕ → List ℕ) where
  -- After `decode_forward_body`.
  unfoldable pub forward_body :
      Result PacketError (SocketAddr × List ℕ) → SocketAddr → ℕ → Bool → Relay → NodeStep Relay
  unfolding forward_new accept
  forward_body (err e) from now delivered r = quiet r
  forward_body (ok (dest, inner)) from now delivered r =
      forward_new (accept hash inner now r.replay) from dest inner delivered

  -- After `decode_outer`.
  unfoldable pub forward_packet :
      Result PacketError (PacketType × ℕ × List ℕ) → SocketAddr → ℕ → Bool → Relay → NodeStep Relay
  unfolding forward_body decode_forward_body same_type
  forward_packet (err e) from now delivered r = quiet r
  forward_packet (ok (ty, flags, body)) from now delivered r =
      if same_type ty forward
      then forward_body (decode_forward_body body) from now delivered r
      else quiet r

  -- The buffer of `recv_from` keeps at most `MAX_DATAGRAM` bytes.
  unfoldable pub step : Received → ℕ → Bool → Relay → NodeStep Relay
  unfolding forward_packet decode_outer
  step timed_out now delivered r = quiet r
  step failed now delivered r = record { state = r; sent = []; result = err recv_failed }
  step (datagram bytes from) now delivered r =
      forward_packet (decode_outer (take max_datagram bytes)) from now delivered r

  -- The loop makes the turns that are given, until `stop` holds behind the last of them.
  unfoldable pub run_until : List Turn → Relay → Run
  unfolding step go_on
  run_until [] r = record { state = r; sent = []; result = ok tt }
  run_until (x ∷ xs) r =
      let t = step x.received x.at x.delivered r in
      go_on t.state t.sent t.result (run_until xs t.state)
