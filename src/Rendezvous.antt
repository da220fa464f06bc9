-- ===== src/Rendezvous.antt =====
-- rendezvous.rs: the token service. What the socket receives, the two readings of the clock, and
-- whether `send_to` succeeds are inputs of a step.
pub mod Laws
pub mod Invariant
pub mod Fate
use ppo_se_protocol.Common.{
  ℕ, ◌-◌, ◌<◌, Bool, true, false, ◌||◌, not, Option, none, some, List, [], ◌∷◌, ◌++◌, Result, ok,
  err, ltb, ◌==◌, if◌then◌else◌, length, get_or, take, drop, slice,
}
use ppo_se_protocol.Common.Bytes.{to_be_bytes, from_be_bytes}
use ppo_se_protocol.Common.Table.{get, insert, bytes_discrete}
use ppo_se_protocol.Wire.{
  max_datagram, SocketAddr, v4, v6, recv_failed, Received, timed_out, failed, datagram, NodeStep,
  quiet, sends,
}
use ppo_se_protocol.Packet.{
  PacketType, rendezvous, PacketError, encode_datagram, decode_outer, same_type,
}

abbrev pub op_register : ℕ
op_register = 1

abbrev pub op_lookup : ℕ
op_lookup = 2

abbrev pub op_reply : ℕ
op_reply = 3

pub record RendezvousService : Type 0 where
  pub map : List (List ℕ × (SocketAddr × ℕ))
  pub ttl : ℕ

-- Milliseconds.
abbrev pub new : RendezvousService
new = record { map = []; ttl = 60_000 }

unfoldable pub retain_live :
    ℕ → ℕ → List (List ℕ × (SocketAddr × ℕ)) → List (List ℕ × (SocketAddr × ℕ))
retain_live now ttl [] = []
retain_live now ttl ((k, (a, t)) ∷ m) =
    if ltb (now - t) ttl then (k, (a, t)) ∷ retain_live now ttl m else retain_live now ttl m

unfoldable pub expire : ℕ → RendezvousService → RendezvousService
unfolding retain_live
expire now s = record s { map = retain_live now s.ttl s.map }

-- `OP_REGISTER`.
unfoldable pub register : List ℕ → SocketAddr → ℕ → RendezvousService → NodeStep RendezvousService
unfolding insert
register body from stamped s = if ltb (length body) 33 then quiet s else record {
  state = record s { map = insert bytes_discrete (slice body 1 33) (from, stamped) s.map };
  sent = [];
  result = ok true;
}

-- The body of the reply: the address of an IPv4 registrar.
abbrev pub reply_of : Option (SocketAddr × ℕ) → List ℕ
reply_of none = op_reply ∷ 0 ∷ []
reply_of (some (v6 octets port, t)) = op_reply ∷ 0 ∷ []
reply_of (some (v4 a b c d port, t)) =
    (op_reply ∷ 1 ∷ []) ++ ((a ∷ b ∷ c ∷ d ∷ []) ++ to_be_bytes 2 port)

unfoldable pub send_reply :
    Result PacketError (List ℕ) → SocketAddr → Bool → RendezvousService → NodeStep RendezvousService
send_reply (err e) from delivered s = quiet s
send_reply (ok pkt) from delivered s = sends s delivered pkt from

-- `OP_LOOKUP`.
unfoldable pub lookup : List ℕ → SocketAddr → Bool → RendezvousService → NodeStep RendezvousService
unfolding send_reply encode_datagram get
lookup body from delivered s =
    if ltb (length body) 33
    then quiet s
    else send_reply
        (encode_datagram rendezvous (reply_of (get bytes_discrete (slice body 1 33) s.map))) from
        delivered s

unfoldable pub dispatch :
    List ℕ → SocketAddr → ℕ → Bool → RendezvousService → NodeStep RendezvousService
unfolding register lookup
dispatch body from stamped delivered s =
    if get_or body 0 0 == op_register
    then register body from stamped s
    else if get_or body 0 0 == op_lookup
    then lookup body from delivered s
    else quiet s

-- After `decode_outer`.
unfoldable pub serve :
    Result PacketError (PacketType × ℕ × List ℕ)
    → SocketAddr
    → ℕ
    → ℕ
    → Bool
    → RendezvousService
    → NodeStep RendezvousService
unfolding dispatch expire same_type
serve (err e) from now stamped delivered s = quiet s
serve (ok (ty, flags, body)) from now stamped delivered s =
    if not (same_type ty rendezvous) || (length body == 0)
    then quiet s
    else dispatch body from stamped delivered (expire now s)

-- `now` is the clock at the expiry, `stamped` the clock at the insertion.
unfoldable pub step : Received → ℕ → ℕ → Bool → RendezvousService → NodeStep RendezvousService
unfolding serve decode_outer
step timed_out now stamped delivered s = quiet s
step failed now stamped delivered s = record { state = s; sent = []; result = err recv_failed }
step (datagram bytes from) now stamped delivered s =
    serve (decode_outer (take max_datagram bytes)) from now stamped delivered s

-- The bytes of "ppose-rs".
abbrev pub token_label : List ℕ
token_label = 112 ∷ 112 ∷ 111 ∷ 115 ∷ 101 ∷ 45 ∷ 114 ∷ 115 ∷ []

unfoldable pub token_from_psk : (List ℕ → List ℕ) → List ℕ → ℕ → List ℕ
token_from_psk blake3 psk epoch_hours = blake3 (token_label ++ (psk ++ to_be_bytes 8 epoch_hours))

-- A panic of `expect` is `none`.
abbrev pub expect : Result PacketError (List ℕ) → Option (List ℕ)
expect (ok pkt) = some pkt
expect (err e) = none

unfoldable pub encode_register : List ℕ → Option (List ℕ)
unfolding encode_datagram
encode_register token = expect (encode_datagram rendezvous (op_register ∷ token))

unfoldable pub encode_lookup : List ℕ → Option (List ℕ)
unfolding encode_datagram
encode_lookup token = expect (encode_datagram rendezvous (op_lookup ∷ token))

-- After `decode_outer`.
unfoldable pub parse_reply : Result PacketError (PacketType × ℕ × List ℕ) → Option SocketAddr
unfolding same_type
parse_reply (err e) = none
parse_reply (ok (ty, flags, body)) =
    if not (same_type ty rendezvous)
      || (ltb (length body) 8 || (not (get_or body 0 0 == op_reply) || not (get_or body 1 0 == 1)))
    then none
    else some (
        v4 (get_or body 2 0) (get_or body 3 0) (get_or body 4 0) (get_or body 5 0)
          (from_be_bytes (slice body 6 8)))

unfoldable pub decode_reply : List ℕ → Option SocketAddr
unfolding parse_reply decode_outer
decode_reply pkt = parse_reply (decode_outer pkt)
