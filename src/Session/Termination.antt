-- ===== src/Session/Termination.antt =====
-- `recv` and `wait_acked` return: enough fuel is the number of readings of the clock up to the deadline.
use ppo_se_protocol.Common.{
  ℕ, refl, min, suc, ◌-◌, dec_lt, ap, ◌+◌, ◌≤◌, ◌<◌, ◌≡◌, Bool, true, false, Option, none, some,
  List, Result, ok, err, arith, ◌==◌,
}
use ppo_se_protocol.Common.Action.{Action, and_then, and_then-ok, put_back}
use ppo_se_protocol.Common.Action.Loop.{iterate-returns}
use ppo_se_protocol.Crypto.{Primitives}
use ppo_se_protocol.Noise.{Snow}
use ppo_se_protocol.Arq.{Arq, ArqError}
use ppo_se_protocol.Arq.Send.{enqueue, unacked_len}
use ppo_se_protocol.Arq.Receive.{pop_delivered}
use ppo_se_protocol.Udp.{Host, tick}
use ppo_se_protocol.Session.{SessionError, arq, UdpSession}
use ppo_se_protocol.Session.Loops.{
  pump, wait_until, recv_wait, deliver_or_wait, recv_turn, recv, done_or_wait, acked_turn,
  wait_acked, after_enqueue, send_timeout,
}
use ppo_se_protocol.Session.Deadline.{wait_until-ok, pump_ticks}

module _ (host : Host) (deadline last : ℕ)
    (rising : (i j : ℕ) → i ≤ j → host.clock i ≤ host.clock j)
    (reached : deadline ≤ host.clock last) where
  early : (i : ℕ) → host.clock i < deadline → i < last
  early i h = elim (dec_lt i last) [
    | yes before ↦ before
    | no late ↦
        absurd (let up = rising last i (omega (arith, late)) in omega (arith, h, reached, up))
  ]

  module _ {snow : Snow} (prims : Primitives) where
    -- The clock has been read since, and not after the deadline.
    abbrev Moves : UdpSession snow → UdpSession snow → Type 0
    Moves s t = (s.sock.ticks < t.sock.ticks) × (t.sock.ticks ≤ last)

    abbrev go_on : {A : Type 0} → Unit {0} → Action (UdpSession snow) SessionError (Option A)
    go_on _ t = (t, ok none)

    -- The tail of a pass that goes on, from the session in which it begins.
    wait-Moves :
        {A : Type 0} (slice : ℕ → ℕ) (s : UdpSession snow)
        → let z = and_then (wait_until prims host slice deadline s) (go_on {A = A}) in
          z.1 ≡ ok none → Moves s z.0
    wait-Moves {A = A} slice s h =
        let (_, e, _, same) =
          and_then-ok (wait_until prims host slice deadline s) (go_on {A = A}) h in
        let (ticks, before) = wait_until-ok prims host slice deadline s e in
        let i = early s.sock.ticks before in
        let up = ap (λ (t : UdpSession snow). t.sock.ticks) same in
        (omega (arith, ticks, up), omega (arith, ticks, up, i))

    recv_wait-Moves :
        (s : UdpSession snow)
        → (recv_wait prims host deadline s).1 ≡ ok none
        → Moves s (recv_wait prims host deadline s).0
    unfolding recv_wait
    recv_wait-Moves s h =
        let t = (pump prims host s).0 in
        let (_, _, e, same) =
          and_then-ok (pump prims host s)
            (λ _ t. and_then (wait_until prims host (λ left. left) deadline t) (go_on {A = List ℕ}))
            h in
        let (up, below) = wait-Moves (λ left. left) t e in
        let first = pump_ticks prims host s in
        let now = ap (λ (t : UdpSession snow). t.sock.ticks) same in
        (omega (arith, up, first, now), omega (arith, below, now))

    deliver_or_wait-Moves :
        (popped : Option (List ℕ)) (s : UdpSession snow)
        → (deliver_or_wait prims host deadline popped s).1 ≡ ok none
        → Moves s (deliver_or_wait prims host deadline popped s).0
    unfolding deliver_or_wait
    deliver_or_wait-Moves (some m) s h = absurd (cc h)
    deliver_or_wait-Moves none s h = recv_wait-Moves s h

    recv_turn-Moves :
        (s : UdpSession snow)
        → (recv_turn prims host deadline s).1 ≡ ok none
        → Moves s (recv_turn prims host deadline s).0
    unfolding recv_turn
    recv_turn-Moves s h =
        deliver_or_wait-Moves (pop_delivered s.arq).1 record s { arq = (pop_delivered s.arq).0 } h

    done_or_wait-Moves :
        (done : Bool) (s : UdpSession snow)
        → (done_or_wait prims host deadline done s).1 ≡ ok none
        → Moves s (done_or_wait prims host deadline done s).0
    unfolding done_or_wait
    done_or_wait-Moves true s h = absurd (cc h)
    done_or_wait-Moves false s h = wait-Moves (min 50) s h

    acked_turn-Moves :
        (s : UdpSession snow)
        → (acked_turn prims host deadline s).1 ≡ ok none
        → Moves s (acked_turn prims host deadline s).0
    unfolding acked_turn
    acked_turn-Moves s h =
        let (_, _, e, same) =
          and_then-ok (pump prims host s)
            (λ _ t. done_or_wait prims host deadline (unacked_len t.arq == 0) t) h in
        let t = (pump prims host s).0 in
        let (up, below) = done_or_wait-Moves (unacked_len t.arq == 0) t e in
        let first = pump_ticks prims host s in
        let now = ap (λ (t : UdpSession snow). t.sock.ticks) same in
        (omega (arith, up, first, now), omega (arith, below, now))

module _ {snow : Snow} (prims : Primitives) (host : Host) where
  -- If the readings of the clock never go back, and the one with number `last` has reached the
  -- deadline, then `recv` returns within one pass for each reading up to that one.
  pub recv-returns :
      (s : UdpSession snow) (wait last : ℕ)
      → ((i j : ℕ) → i ≤ j → host.clock i ≤ host.clock j)
      → host.clock s.sock.ticks + wait ≤ host.clock last
      → (z : UdpSession snow × Result SessionError (List ℕ)) × (recv prims host
            (suc (last - s.sock.ticks))
            wait
            s
          ≡ some z)
  unfolding recv
  recv-returns s wait last rising reached =
      let deadline = host.clock s.sock.ticks + wait in
      iterate-returns (recv_turn prims host deadline) (λ t. t.sock.ticks) last
        (recv_turn-Moves host deadline last rising reached prims) (last - s.sock.ticks)
        record s { sock = tick s.sock } (omega arith)

  -- `wait_acked` returns within as many passes.
  pub wait_acked-returns :
      (s : UdpSession snow) (wait last : ℕ)
      → ((i j : ℕ) → i ≤ j → host.clock i ≤ host.clock j)
      → host.clock s.sock.ticks + wait ≤ host.clock last
      → (z : UdpSession snow × Result SessionError (Unit {0})) × (wait_acked prims host
            (suc (last - s.sock.ticks))
            wait
            s
          ≡ some z)
  unfolding wait_acked
  wait_acked-returns s wait last rising reached =
      let deadline = host.clock s.sock.ticks + wait in
      iterate-returns (acked_turn prims host deadline) (λ t. t.sock.ticks) last
        (acked_turn-Moves host deadline last rising reached prims) (last - s.sock.ticks)
        record s { sock = tick s.sock } (omega arith)

  queued-returns :
      (x : Arq × Result ArqError (Unit {0})) (s : UdpSession snow) (wait last : ℕ)
      → ((i j : ℕ) → i ≤ j → host.clock i ≤ host.clock j)
      → host.clock s.sock.ticks + wait ≤ host.clock last
      → (z : UdpSession snow × Result SessionError (Unit {0})) × (after_enqueue prims host
            (suc (last - s.sock.ticks))
            wait
            (put_back (λ s a. record s { arq = a }) arq s x)
          ≡ some z)
  queued-returns (a, ok _) s wait last rising reached =
      wait_acked-returns record s { arq = a } wait last rising reached
  queued-returns (a, err e) s wait last rising reached = ((record s { arq = a }, err (arq e)), refl)

  -- If the readings of the clock never go back, and the one with number `last` is at least `wait`
  -- later than the session's next one, then `send_timeout` with this `wait` returns, whatever the
  -- message is, on fuel for one pass and another one for each reading from the session's next one to
  -- that one.
  pub send_timeout-returns :
      (plaintext : List ℕ) (s : UdpSession snow) (wait last : ℕ)
      → ((i j : ℕ) → i ≤ j → host.clock i ≤ host.clock j)
      → host.clock s.sock.ticks + wait ≤ host.clock last
      → (z : UdpSession snow × Result SessionError (Unit {0})) × (send_timeout prims host
            (suc (last - s.sock.ticks))
            plaintext
            wait
            s
          ≡ some z)
  unfolding send_timeout
  send_timeout-returns plaintext s = queued-returns (enqueue plaintext s.arq) s
