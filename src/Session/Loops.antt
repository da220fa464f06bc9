-- ===== src/Session/Loops.antt =====
-- session.rs: the loops of the data phase, `recv` and `wait_acked`, on fuel: a unit for each pass.
use ppo_se_protocol.Common.{
  ℕ, ◌+◌, ◌-◌, Bool, true, false, Option, none, some, List, Result, ok, err, leb, ◌==◌, min,
}
use ppo_se_protocol.Common.Action.{Action, and_then, ◌>>=◌, ◌>>◌, pure, gets, iterate}
use ppo_se_protocol.Crypto.{Primitives}
use ppo_se_protocol.Noise.{Snow}
use ppo_se_protocol.Arq.Send.{enqueue, unacked_len}
use ppo_se_protocol.Arq.Receive.{pop_delivered}
use ppo_se_protocol.Udp.{Host, tick, recv_raw, set_read_timeout}
use ppo_se_protocol.Session.{SessionError, arq, timeout, UdpSession}
use ppo_se_protocol.Session.Link.{on_sock}
use ppo_se_protocol.Session.Transfer.{on_arq, try_arq, flush, maybe_cover, heard}

module _ {snow : Snow} (prims : Primitives) (host : Host) where
  -- The head of each pass sends what is due.
  unfoldable pub pump : Action (UdpSession snow) SessionError (Unit {0})
  unfolding flush maybe_cover
  pump s = and_then (flush prims host s) (λ _. maybe_cover prims host)

  -- The tail of each pass: the match on `recv_raw`, behind the test of the deadline and the timeout
  -- of the socket.
  unfoldable pub listen : Action (UdpSession snow) SessionError (Unit {0})
  unfolding recv_raw heard
  listen s = heard prims host (on_sock (recv_raw host) s)

  -- `if now >= deadline { .. }` and what follows.
  unfoldable pub listen_unless : Bool → ℕ → Action (UdpSession snow) SessionError (Unit {0})
  unfolding set_read_timeout listen
  listen_unless true left s = (s, err timeout)
  listen_unless false left s = and_then (on_sock (set_read_timeout left) s) (λ _. listen)

  unfoldable pub wait_until : (ℕ → ℕ) → ℕ → Action (UdpSession snow) SessionError (Unit {0})
  unfolding listen_unless
  wait_until slice deadline s =
      let now = host.clock s.sock.ticks in
      listen_unless (leb deadline now) (slice (deadline - now)) record s { sock = tick s.sock }

  unfoldable pub recv_wait : ℕ → Action (UdpSession snow) SessionError (Option (List ℕ))
  unfolding pump wait_until
  recv_wait deadline = do pump; wait_until (λ left. left) deadline; pure none

  -- A pass of `recv`, on what `pop_delivered` gave.
  unfoldable pub deliver_or_wait :
      ℕ → Option (List ℕ) → Action (UdpSession snow) SessionError (Option (List ℕ))
  unfolding recv_wait
  deliver_or_wait deadline (some m) s = (s, ok (some m))
  deliver_or_wait deadline none s = recv_wait deadline s

  unfoldable pub recv_turn : ℕ → Action (UdpSession snow) SessionError (Option (List ℕ))
  unfolding deliver_or_wait
  recv_turn deadline = do popped ← on_arq pop_delivered; deliver_or_wait deadline popped

  unfoldable pub recv :
      ℕ → ℕ → UdpSession snow → Option (UdpSession snow × Result SessionError (List ℕ))
  unfolding iterate recv_turn
  recv fuel wait s =
      iterate fuel (recv_turn (host.clock s.sock.ticks + wait)) record s { sock = tick s.sock }

  -- `if self.arq.unacked_len() == 0 { return Ok(()); }` and the rest of the pass.
  unfoldable pub done_or_wait : ℕ → Bool → Action (UdpSession snow) SessionError (Option (Unit {0}))
  unfolding wait_until
  done_or_wait deadline true s = (s, ok (some tt))
  done_or_wait deadline false s = (do wait_until (min 50) deadline; pure none) s

  unfoldable pub acked_turn : ℕ → Action (UdpSession snow) SessionError (Option (Unit {0}))
  unfolding pump done_or_wait
  acked_turn deadline = do
    pump
    unacked ← gets (λ s. unacked_len s.arq)
    done_or_wait deadline (unacked == 0)

  unfoldable pub wait_acked :
      ℕ → ℕ → UdpSession snow → Option (UdpSession snow × Result SessionError (Unit {0}))
  unfolding iterate acked_turn
  wait_acked fuel wait s =
      iterate fuel (acked_turn (host.clock s.sock.ticks + wait)) record s { sock = tick s.sock }

  abbrev pub after_enqueue :
      ℕ
      → ℕ
      → UdpSession snow × Result SessionError (Unit {0})
      → Option (UdpSession snow × Result SessionError (Unit {0}))
  after_enqueue fuel wait (s, err e) = some (s, err e)
  after_enqueue fuel wait (s, ok _) = wait_acked fuel wait s

  unfoldable pub send_timeout :
      ℕ → List ℕ → ℕ → UdpSession snow → Option (UdpSession snow × Result SessionError (Unit {0}))
  unfolding wait_acked enqueue
  send_timeout fuel plaintext wait s = after_enqueue fuel wait (try_arq arq (enqueue plaintext) s)

  unfoldable pub send :
      ℕ → List ℕ → UdpSession snow → Option (UdpSession snow × Result SessionError (Unit {0}))
  unfolding send_timeout
  send fuel plaintext = send_timeout fuel plaintext 5000
