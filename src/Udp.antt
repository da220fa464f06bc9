-- ===== src/Udp.antt =====
-- network/udp.rs: the helpers around a UDP socket, and the host that the socket, the clock and the
-- random generator belong to.
use ppo_se_protocol.Common.{
  ℕ, suc, ◌==◌, Bool, Option, none, some, List, [], ◌∷◌, ◌++◌, Result, ok, err, take, if◌then◌else◌,
}
use ppo_se_protocol.Common.Action.{Action, ◌>>=◌, pure, lift}
use ppo_se_protocol.Wire.{
  max_datagram, SocketAddr, Received, timed_out, failed, datagram, IoError, recv_failed,
  send_failed, would_block, zero_timeout, invalid_input, invalid_data,
}
use ppo_se_protocol.Packet.{PacketType, encode_datagram, decode_outer}
use ppo_se_protocol.Onion.{Draw}

-- What the host will answer, in order: the readings of `Instant::now` in milliseconds, what
-- `recv_from` gives, whether `send_to` succeeds, what `fill_bytes` writes for a length, and what a
-- layer of an onion draws.
pub record Host : Type 0 where
  pub clock : ℕ → ℕ
  pub arrivals : ℕ → Received
  pub delivers : ℕ → Bool
  pub filled : ℕ → ℕ → List ℕ
  pub draws : ℕ → Draw

-- How many answers are used up, the timeout that is set, and what was given to `send_to`.
pub record Socket : Type 0 where
  pub ticks : ℕ
  pub received : ℕ
  pub sends : ℕ
  pub fills : ℕ
  pub layers : ℕ
  pub read_timeout : Option ℕ
  pub outbox : List (List ℕ × SocketAddr)

abbrev pub bound : Socket
bound = record {
  ticks = 0;
  received = 0;
  sends = 0;
  fills = 0;
  layers = 0;
  read_timeout = none;
  outbox = [];
}

-- A buffer of `room` bytes cuts a longer datagram off.
abbrev pub arrival : ℕ → Received → Result IoError (List ℕ × SocketAddr)
arrival room timed_out = err would_block
arrival room failed = err recv_failed
arrival room (datagram bytes from) = ok (take room bytes, from)

abbrev pub tick : Socket → Socket
tick s = record s { ticks = suc s.ticks }

module _ (host : Host) where
  unfoldable pub instant_now : {E : Type 0} → Action Socket E ℕ
  instant_now s = (tick s, ok (host.clock s.ticks))

  unfoldable pub fill_bytes : {E : Type 0} → ℕ → Action Socket E (List ℕ)
  fill_bytes n s = (record s { fills = suc s.fills }, ok (host.filled s.fills n))

  unfoldable pub send_to : List ℕ → SocketAddr → Action Socket IoError (Unit {0})
  send_to pkt dest s = (
    record s { sends = suc s.sends; outbox = s.outbox ++ ((pkt, dest) ∷ []) },
    if host.delivers s.sends then ok tt else err send_failed,
  )

  unfoldable pub recv_from : ℕ → Action Socket IoError (List ℕ × SocketAddr)
  recv_from room s =
      (record s { received = suc s.received }, arrival room (host.arrivals s.received))

  unfoldable pub recv_raw : Action Socket IoError (List ℕ × SocketAddr)
  unfolding recv_from
  recv_raw = recv_from max_datagram

  unfoldable pub send_framed : SocketAddr → PacketType → List ℕ → Action Socket IoError (Unit {0})
  unfolding encode_datagram send_to
  send_framed peer ty body = do
    pkt ← lift (λ _. invalid_input) (encode_datagram ty body)
    send_to pkt peer

  unfoldable pub recv_framed : Action Socket IoError (PacketType × List ℕ × SocketAddr)
  unfolding recv_raw decode_outer
  recv_framed = do
    (pkt, from) ← recv_raw
    (ty, flags, body) ← lift (λ _. invalid_data) (decode_outer pkt)
    pure (ty, body, from)

-- The standard library refuses a timeout of nothing.
unfoldable pub set_read_timeout : ℕ → Action Socket IoError (Unit {0})
set_read_timeout left s =
    if left == 0 then (s, err zero_timeout) else (record s { read_timeout = some left }, ok tt)
