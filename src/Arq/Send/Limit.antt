-- ===== src/Arq/Send/Limit.antt =====
-- How often the frames in the queue are sent, over any sequence of the sender's calls.
use ppo_se_protocol.Common.{
  ℕ, ◌+◌, ◌-◌, ◌≤◌, ◌≡◌, refl, subst, Bool, true, ◌||◌, List, [], ◌∷◌, ◌++◌, Result, ok, err, ◌==◌,
  if◌then◌else◌, arith, All,
}
use ppo_se_protocol.Arq.{Arq, Outgoing, ArqGiveUp}
use ppo_se_protocol.Arq.Send.{
  was_sent, new_sends, take_new_sends, retransmits, take_retransmits, in_flight_sent,
}
use ppo_se_protocol.Arq.Acknowledge.{drop_acked, on_ack}

-- The calls that send frames, with their time, and an ACK that comes in.
pub data Call : Type 0 where
  new_frames : ℕ → Call
  due_again : ℕ → Call
  ack_in : ℕ → ℕ → Call

-- What goes out: nothing when the sender gives up.
abbrev sent_again : Result ArqGiveUp (List (List ℕ)) → List (List ℕ)
sent_again (ok out) = out
sent_again (err g) = []

unfoldable pub call : Call → Arq → Arq × List (List ℕ)
unfolding take_new_sends take_retransmits on_ack
call (new_frames now) s = take_new_sends now s
call (due_again now) s = let (s', r) = take_retransmits now s in (s', sent_again r)
call (ack_in base bitmap) s = (on_ack base bitmap s, [])

-- Everything that goes out in the calls, in order.
unfoldable pub sent_by : List Call → Arq → List (List ℕ)
unfolding call
sent_by [] s = []
sent_by (c ∷ cs) s = (call c s).1 ++ sent_by cs (call c s).0

-- A frame that waits for its first send has no attempts yet.
abbrev pub IsCounted : List (ℕ × Outgoing) → Type 0
IsCounted = All (λ e. (was_sent e.1 || (e.1.attempts == 0)) ≡ true)

module _ (which : List ℕ → Bool) where
  -- How many of the frames are of the kind.
  unfoldable pub count : List (List ℕ) → ℕ
  count [] = 0
  count (p ∷ ps) = if which p then 1 + count ps else count ps

  -- The attempts that the queue has left for frames of the kind.
  unfoldable pub attempts_left : ℕ → List (ℕ × Outgoing) → ℕ
  attempts_left limit [] = 0
  attempts_left limit ((_, o) ∷ m) =
      if which o.plaintext
      then (limit - o.attempts) + attempts_left limit m
      else attempts_left limit m

  count-append : (ps qs : List (List ℕ)) → count (ps ++ qs) ≡ count ps + count qs
  unfolding count
  count-append [] qs = omega arith
  count-append (p ∷ ps) qs = ground (arith, count-append ps qs)

  module _ (now limit : ℕ) where
    new_sends-left :
        (sent : ℕ) (m : List (ℕ × Outgoing))
        → 1 ≤ limit
        → IsCounted m
        → count (new_sends now sent m).1 + attempts_left limit (new_sends now sent m).0
          ≤ attempts_left limit m
    unfolding new_sends count attempts_left
    new_sends-left sent [] one h = omega arith
    new_sends-left sent ((k, o) ∷ m) one h =
        ground (arith, new_sends-left sent m one h.1, new_sends-left (sent + 1) m one h.1)

    retransmits-left :
        (retx : ℕ) (m : List (ℕ × Outgoing))
        → count (sent_again (retransmits now retx limit m).1)
            + attempts_left limit (retransmits now retx limit m).0
          ≤ attempts_left limit m
    unfolding retransmits count attempts_left
    retransmits-left retx [] = omega arith
    retransmits-left retx ((k, o) ∷ m) = ground (arith, retransmits-left retx m)

  drop_acked-left :
      (limit base bitmap : ℕ) (m : List (ℕ × Outgoing))
      → attempts_left limit (drop_acked base bitmap m) ≤ attempts_left limit m
  unfolding drop_acked attempts_left
  drop_acked-left limit base bitmap [] = omega arith
  drop_acked-left limit base bitmap ((k, o) ∷ m) =
      ground (arith, drop_acked-left limit base bitmap m)

new_sends-IsCounted :
    (now sent : ℕ) (m : List (ℕ × Outgoing)) → IsCounted m → IsCounted (new_sends now sent m).0
unfolding new_sends
new_sends-IsCounted now sent [] h = tt
new_sends-IsCounted now sent ((k, o) ∷ m) h =
    ground (arith, new_sends-IsCounted now sent m h.1, new_sends-IsCounted now (sent + 1) m h.1)

retransmits-IsCounted :
    (now retx limit : ℕ) (m : List (ℕ × Outgoing))
    → IsCounted m
    → IsCounted (retransmits now retx limit m).0
unfolding retransmits
retransmits-IsCounted now retx limit [] h = tt
retransmits-IsCounted now retx limit ((k, o) ∷ m) h =
    ground (arith, retransmits-IsCounted now retx limit m h.1)

drop_acked-IsCounted :
    (base bitmap : ℕ) (m : List (ℕ × Outgoing)) → IsCounted m → IsCounted (drop_acked base bitmap m)
unfolding drop_acked
drop_acked-IsCounted base bitmap [] h = tt
drop_acked-IsCounted base bitmap ((k, o) ∷ m) h =
    ground (arith, drop_acked-IsCounted base bitmap m h.1)

call-IsCounted : (c : Call) (s : Arq) → IsCounted s.unacked → IsCounted (call c s).0.unacked
unfolding call take_new_sends take_retransmits on_ack
call-IsCounted (new_frames now) s h = new_sends-IsCounted now (in_flight_sent s) s.unacked h
call-IsCounted (due_again now) s h = retransmits-IsCounted now s.retx s.max_attempts s.unacked h
call-IsCounted (ack_in base bitmap) s h = drop_acked-IsCounted base bitmap s.unacked h

same_limit : (c : Call) (s : Arq) → (call c s).0.max_attempts ≡ s.max_attempts
unfolding call take_new_sends take_retransmits on_ack
same_limit (new_frames now) s = refl
same_limit (due_again now) s = refl
same_limit (ack_in base bitmap) s = refl

module _ (which : List ℕ → Bool) where
  call-left :
      (c : Call) (s : Arq)
      → 1 ≤ s.max_attempts
      → IsCounted s.unacked
      → count which (call c s).1 + attempts_left which s.max_attempts (call c s).0.unacked
        ≤ attempts_left which s.max_attempts s.unacked
  unfolding call count take_new_sends take_retransmits on_ack
  call-left (new_frames now) s one h =
      new_sends-left which now s.max_attempts (in_flight_sent s) s.unacked one h
  call-left (due_again now) s one h = retransmits-left which now s.max_attempts s.retx s.unacked
  call-left (ack_in base bitmap) s one h =
      let less = drop_acked-left which s.max_attempts base bitmap s.unacked in omega (arith, less)

  -- With `max_attempts` at least one, and no attempt counted for a frame that was never sent: in any
  -- sequence of calls of `take_new_sends`, `take_retransmits` and `on_ack`, frames of any kind (by
  -- their plaintext) go out at most as often as those in the queue have attempts left, which is
  -- `max_attempts` for a frame that is new and one less for each time it was sent.
  pub sent_by-le :
      (calls : List Call) (s : Arq)
      → 1 ≤ s.max_attempts
      → IsCounted s.unacked
      → count which (sent_by calls s) ≤ attempts_left which s.max_attempts s.unacked
  unfolding sent_by count
  sent_by-le [] s one h = omega arith
  sent_by-le (c ∷ cs) s one h =
      let limit = same_limit c s in
      let first = call-left c s one h in
      let size = count-append which (call c s).1 (sent_by cs (call c s).0) in
      let rest =
        subst
          (λ n. count which (sent_by cs (call c s).0) ≤ attempts_left which n (call c s).0.unacked)
          limit (sent_by-le cs (call c s).0 (omega (arith, one, limit)) (call-IsCounted c s h)) in
      omega (arith, first, size, rest)
