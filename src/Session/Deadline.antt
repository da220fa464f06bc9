-- ===== src/Session/Deadline.antt =====
-- The clock in the loops of a session: each pass that goes on has read it before the deadline, so the
-- loops end.
use ppo_se_protocol.Common.{
  ℕ, suc, ◌-◌, ◌≤◌, ◌<◌, ◌≡◌, refl, ◌∙◌, Bool, true, false, Option, none, some, Result, ok, err,
  arith, ltb, leb, if-either, ◌==◌, ◌-◌,
}
use ppo_se_protocol.Common.Action.{and_then}
use ppo_se_protocol.Common.Action.Keeps.{and_then-Keeps, put_back-Keeps}
use ppo_se_protocol.Wire.{zero_timeout, IoError}
use ppo_se_protocol.Packet.{data_packet}
use ppo_se_protocol.Crypto.{Primitives}
use ppo_se_protocol.Noise.{Snow}
use ppo_se_protocol.Cover.{interval, payload_len}
use ppo_se_protocol.Arq.Send.{take_new_sends, take_retransmits}
use ppo_se_protocol.Udp.{
  Host, Socket, tick, instant_now, fill_bytes, recv_raw, recv_from, set_read_timeout,
}
use ppo_se_protocol.Session.{SessionError, io, give_up, UdpSession}
use ppo_se_protocol.Session.Link.{on_sock}
use ppo_se_protocol.Session.Transfer.{
  try_arq, seal_all, flush, cover_unless, cover_every, send_cover, maybe_cover,
}
use ppo_se_protocol.Session.Loops.{listen, listen_unless, wait_until, pump}
use ppo_se_protocol.Session.Clock.{
  same_clock, Timeless, heard-Timeless, seal_all-Timeless, send_inner-Timeless,
}

module _ {snow : Snow} (prims : Primitives) (host : Host) where
  listen-Timeless : Timeless snow (listen prims host)
  unfolding listen recv_raw recv_from
  listen-Timeless s =
      heard-Timeless prims host (on_sock (recv_raw host) s)
      ∙ put_back-Keeps (same_clock snow) (λ s sock. record s { sock = sock }) io s
          (recv_raw host s.sock) refl

  set_read_timeout-Timeless : (left : ℕ) → Timeless snow (on_sock (set_read_timeout left))
  unfolding set_read_timeout
  set_read_timeout-Timeless left s =
      put_back-Keeps (same_clock snow) (λ s sock. record s { sock = sock }) io s
        (set_read_timeout left s.sock)
        (if-either (λ (x : Socket × Result IoError (Unit {0})). x.0.ticks ≡ s.sock.ticks)
          (left == 0) (s.sock, err zero_timeout) (record s.sock { read_timeout = some left }, ok tt)
          refl refl)

  listen_unless-ok :
      (late : Bool) (left : ℕ) (s : UdpSession snow)
      → (listen_unless prims host late left s).1 ≡ ok tt
      → ((listen_unless prims host late left s).0.sock.ticks ≡ s.sock.ticks) × (late ≡ false)
  unfolding listen_unless
  listen_unless-ok true left s h = absurd (cc h)
  listen_unless-ok false left s h = (
    and_then-Keeps (same_clock snow) s (on_sock (set_read_timeout left) s) (λ _. listen prims host)
        (set_read_timeout-Timeless left s) (λ _. listen-Timeless),
    refl,
  )

  -- The tail of a pass reads the clock once, and ends without an error only before the deadline.
  pub wait_until-ok :
      (slice : ℕ → ℕ) (deadline : ℕ) (s : UdpSession snow)
      → (wait_until prims host slice deadline s).1 ≡ ok tt
      → ((wait_until prims host slice deadline s).0.sock.ticks ≡ suc s.sock.ticks)
        × (host.clock s.sock.ticks < deadline)
  unfolding wait_until
  wait_until-ok slice deadline s h =
      let now = host.clock s.sock.ticks in
      let (same, early) =
        listen_unless-ok (leb deadline now) (slice (deadline - now)) record s { sock = tick s.sock }
          h in
      (same, ground (arith, early))

  pub flush_ticks : (s : UdpSession snow) → (flush prims host s).0.sock.ticks ≡ suc s.sock.ticks
  unfolding flush instant_now
  flush_ticks s =
      let now = host.clock s.sock.ticks in
      let (a, news) = take_new_sends now s.arq in
      and_then-Keeps (same_clock snow) record s { sock = tick s.sock; arq = a }
        (seal_all prims host news record s { sock = tick s.sock; arq = a })
        (λ _ u. and_then (try_arq give_up (take_retransmits now) u) (seal_all prims host))
        (seal_all-Timeless prims host news _)
        (λ _ u.
          and_then-Keeps (same_clock snow) u (try_arq give_up (take_retransmits now) u)
            (seal_all prims host)
            (put_back-Keeps (same_clock snow) (λ s a. record s { arq = a }) give_up u
              (take_retransmits now u.arq) refl)
            (seal_all-Timeless prims host))

  cover_unless-Timeless : (b : Bool) (now : ℕ) → Timeless snow (cover_unless prims host b now)
  unfolding cover_unless send_cover fill_bytes
  cover_unless-Timeless true now s = refl
  cover_unless-Timeless false now s =
      send_inner-Timeless prims host data_packet (host.filled s.sock.fills (payload_len s.cover))
        record s { sock = record s.sock { fills = suc s.sock.fills }; last_cover = now }

  cover_every_ticks :
      (pause : Option ℕ) (s : UdpSession snow)
      → s.sock.ticks ≤ (cover_every prims host pause s).0.sock.ticks
  unfolding cover_every
  cover_every_ticks none s = omega arith
  cover_every_ticks (some pause) s =
      let now = host.clock s.sock.ticks in
      let e =
        cover_unless-Timeless (ltb (now - s.last_cover) pause) now
          record s { sock = tick s.sock } in
      omega (arith, e)

  pump_ticks_by :
      (x : UdpSession snow × Result SessionError (Unit {0})) (s : UdpSession snow)
      → x.0.sock.ticks ≡ suc s.sock.ticks
      → s.sock.ticks < (and_then x (λ _. maybe_cover prims host)).0.sock.ticks
  unfolding maybe_cover
  pump_ticks_by (t, ok _) s e =
      let up = cover_every_ticks (interval t.cover) t in omega (arith, e, up)
  pump_ticks_by (t, err _) s e = omega (arith, e)

  pub pump_ticks : (s : UdpSession snow) → s.sock.ticks < (pump prims host s).0.sock.ticks
  unfolding pump maybe_cover
  pump_ticks s = pump_ticks_by (flush prims host s) s (flush_ticks s)
