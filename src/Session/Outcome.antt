-- ===== src/Session/Outcome.antt =====
-- What it means that a send has returned: everything that was queued has been acknowledged.
use ppo_se_protocol.Common.{
  ℕ, ◌+◌, ◌==◌, ◌≡◌, refl, ap, subst, ◌∙◌, Bool, true, false, none, some, List, [], ◌∷◌, Result, ok,
  err, arith, length, min,
}
use ppo_se_protocol.Common.Action.{and_then-ok, put_back}
use ppo_se_protocol.Common.Action.Loop.{iterate-last}
use ppo_se_protocol.Crypto.{Primitives}
use ppo_se_protocol.Noise.{Snow}
use ppo_se_protocol.Arq.{Arq, ArqError, Outgoing}
use ppo_se_protocol.Arq.Send.{unacked_len, enqueue}
use ppo_se_protocol.Udp.{Host, tick}
use ppo_se_protocol.Session.{arq, UdpSession}
use ppo_se_protocol.Session.Loops.{
  pump, wait_until, done_or_wait, acked_turn, wait_acked, after_enqueue, send_timeout,
}

no_frames : (m : List (ℕ × Outgoing)) → (length m == 0) ≡ true → m ≡ []
no_frames [] h = refl
no_frames (x ∷ m) h = absurd (ground arith)

module _ {snow : Snow} (prims : Primitives) (host : Host) where
  done_or_wait-done :
      (deadline : ℕ) (done : Bool) (s : UdpSession snow)
      → (done_or_wait prims host deadline done s).1 ≡ ok (some tt)
      → (done ≡ true) × ((done_or_wait prims host deadline done s).0 ≡ s)
  unfolding done_or_wait
  done_or_wait-done deadline true s h = (refl, refl)
  done_or_wait-done deadline false s h =
      let (_, _, e, _) =
        and_then-ok (wait_until prims host (min 50) deadline s) (λ _ t. (t, ok none)) h in
      absurd (cc e)

  acked_turn-done :
      (deadline : ℕ) (s : UdpSession snow)
      → (acked_turn prims host deadline s).1 ≡ ok (some tt)
      → (acked_turn prims host deadline s).0.arq.unacked ≡ []
  unfolding acked_turn
  acked_turn-done deadline s h =
      let t = (pump prims host s).0 in
      let (_, _, e, same) =
        and_then-ok (pump prims host s)
          (λ _ t. done_or_wait prims host deadline (unacked_len t.arq == 0) t) h in
      let (none_left, stays) = done_or_wait-done deadline (unacked_len t.arq == 0) t e in
      ap (λ (t : UdpSession snow). t.arq.unacked) (same ∙ stays) ∙ no_frames t.arq.unacked none_left

  wait_acked-ok :
      (fuel wait : ℕ) (s t : UdpSession snow)
      → wait_acked prims host fuel wait s ≡ some (t, ok tt)
      → t.arq.unacked ≡ []
  unfolding wait_acked
  wait_acked-ok fuel wait s t h =
      let deadline = host.clock s.sock.ticks + wait in
      let (u, ends, done) =
        iterate-last (acked_turn prims host deadline) fuel record s { sock = tick s.sock } t tt h in
      subst (λ (t : UdpSession snow). t.arq.unacked ≡ []) ends (acked_turn-done deadline u done)

  queued-ok :
      (fuel wait : ℕ) (x : Arq × Result ArqError (Unit {0})) (s t : UdpSession snow)
      → after_enqueue prims host fuel wait (put_back (λ s a. record s { arq = a }) arq s x)
        ≡ some (t, ok tt)
      → t.arq.unacked ≡ []
  queued-ok fuel wait (a, ok _) s t h = wait_acked-ok fuel wait record s { arq = a } t h
  queued-ok fuel wait (a, err e) s t h = absurd (cc h)

  -- If `send_timeout` returns without an error, then no frame is waiting for an acknowledgement: not
  -- of this message, and not of an earlier one.
  pub send_timeout-ok :
      (fuel : ℕ) (plaintext : List ℕ) (wait : ℕ) (s t : UdpSession snow)
      → send_timeout prims host fuel plaintext wait s ≡ some (t, ok tt)
      → t.arq.unacked ≡ []
  unfolding send_timeout
  send_timeout-ok fuel plaintext wait s t h = queued-ok fuel wait (enqueue plaintext s.arq) s t h
