-- ===== src/Rendezvous/Invariant.antt =====
-- The association list that stands for the map keeps its form in every step.
use ppo_se_protocol.Common.{
  ℕ, Bool, List, Result, ok, err, ltb, ◌==◌, ◌||◌, not, get_or, if-either, length, take, slice,
}
use ppo_se_protocol.Common.Table.{bytes_discrete}
use ppo_se_protocol.Common.Distinct.{IsDistinct, insert-IsDistinct}
use ppo_se_protocol.Wire.{max_datagram, SocketAddr, Received, timed_out, failed, datagram, NodeStep}
use ppo_se_protocol.Packet.{PacketType, PacketError, same_type, rendezvous, decode_outer}
use ppo_se_protocol.Rendezvous.{
  RendezvousService, op_register, op_lookup, expire, register, send_reply, lookup, dispatch, serve,
  step,
}
use ppo_se_protocol.Rendezvous.Laws.{retain_live-IsDistinct}

-- The map names no token twice.
abbrev pub IsValid : RendezvousService → Type 0
IsValid s = IsDistinct bytes_discrete s.map

send_reply-IsValid :
    (r : Result PacketError (List ℕ)) (from : SocketAddr) (delivered : Bool) (s : RendezvousService)
    → IsValid s
    → IsValid (send_reply r from delivered s).state
unfolding send_reply
send_reply-IsValid (err e) from delivered s d = d
send_reply-IsValid (ok pkt) from delivered s d = d

register-IsValid :
    (body : List ℕ) (from : SocketAddr) (stamped : ℕ) (s : RendezvousService)
    → IsValid s
    → IsValid (register body from stamped s).state
unfolding register
register-IsValid body from stamped s d =
    if-either (λ (n : NodeStep RendezvousService). IsValid n.state) (ltb (length body) 33) _ _ d
      (insert-IsDistinct bytes_discrete (slice body 1 33) (from, stamped) s.map d)

lookup-IsValid :
    (body : List ℕ) (from : SocketAddr) (delivered : Bool) (s : RendezvousService)
    → IsValid s
    → IsValid (lookup body from delivered s).state
unfolding lookup
lookup-IsValid body from delivered s d =
    if-either (λ (n : NodeStep RendezvousService). IsValid n.state) (ltb (length body) 33) _ _ d
      (send_reply-IsValid _ from delivered s d)

dispatch-IsValid :
    (body : List ℕ) (from : SocketAddr) (stamped : ℕ) (delivered : Bool) (s : RendezvousService)
    → IsValid s
    → IsValid (dispatch body from stamped delivered s).state
unfolding dispatch
dispatch-IsValid body from stamped delivered s d =
    if-either (λ (n : NodeStep RendezvousService). IsValid n.state) (get_or body 0 0 == op_register)
      _ _ (register-IsValid body from stamped s d)
      (if-either (λ (n : NodeStep RendezvousService). IsValid n.state)
        (get_or body 0 0 == op_lookup) _ _ (lookup-IsValid body from delivered s d) d)

serve-IsValid :
    (o : Result PacketError (PacketType × ℕ × List ℕ)) (from : SocketAddr) (now stamped : ℕ)
    (delivered : Bool) (s : RendezvousService)
    → IsValid s
    → IsValid (serve o from now stamped delivered s).state
unfolding serve expire
serve-IsValid (err e) from now stamped delivered s d = d
serve-IsValid (ok (ty, flags, body)) from now stamped delivered s d =
    if-either (λ (n : NodeStep RendezvousService). IsValid n.state)
      (not (same_type ty rendezvous) || (length body == 0)) _ _ d
      (dispatch-IsValid body from stamped delivered (expire now s)
        (retain_live-IsDistinct now s.ttl s.map d))

-- No step, whatever arrives, makes the map name a token twice.
pub step-IsValid :
    (x : Received) (now stamped : ℕ) (delivered : Bool) (s : RendezvousService)
    → IsValid s
    → IsValid (step x now stamped delivered s).state
unfolding step
step-IsValid timed_out now stamped delivered s d = d
step-IsValid failed now stamped delivered s d = d
step-IsValid (datagram bytes from) now stamped delivered s d =
    serve-IsValid (decode_outer (take max_datagram bytes)) from now stamped delivered s d
