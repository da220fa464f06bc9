-- ===== src/Arq/Send/Window.antt =====
-- The send window: what `take_new_sends` sends, and that it never has more than 32 frames in flight.
use ppo_se_protocol.Common.{
  ℕ, suc, ◌+◌, ◌-◌, ◌≤◌, ◌≡◌, refl, ap, List, [], ◌∷◌, length, take, drop, map, leb, if◌then◌else◌,
  arith, sym, take-nil, drop-nil, length-take, Bool-cases, inl, inr,
}
use ppo_se_protocol.Arq.{Arq, Outgoing, window_size}
use ppo_se_protocol.Arq.Send.{was_sent, count_sent, in_flight_sent, new_sends, take_new_sends}

-- The plaintexts that wait for their first send, in key order.
abbrev pub waiting : List (ℕ × Outgoing) → List (List ℕ)
waiting [] = []
waiting ((_, o) ∷ m) = if was_sent o then waiting m else o.plaintext ∷ waiting m

-- What is queued under each number, whatever has been sent.
abbrev pub queue : List (ℕ × Outgoing) → List (ℕ × List ℕ)
queue = map (λ e. (e.0, e.1.plaintext))

module _ (now : ℕ) where
  record Sends (sent : ℕ) (m : List (ℕ × Outgoing)) (r : List (ℕ × Outgoing) × List (List ℕ))
      : Type 0 where
    out : r.1 ≡ take (window_size - sent) (waiting m)
    left : waiting r.0 ≡ drop (window_size - sent) (waiting m)
    counted : count_sent r.0 ≡ count_sent m + length r.1
    kept : queue r.0 ≡ queue m

  new_sends-Sends : (sent : ℕ) (m : List (ℕ × Outgoing)) → Sends sent m (new_sends now sent m)
  unfolding new_sends
  new_sends-Sends sent [] = record {
    out = sym (take-nil (window_size - sent));
    left = sym (drop-nil (window_size - sent));
    counted = omega arith;
    kept = refl;
  }
  new_sends-Sends sent ((k, o) ∷ m) = elim (Bool-cases (leb window_size sent)) [
    | inl full ↦
        let none_left : window_size - sent ≡ 0 = ground arith in
        rw (full, new_sends)
          (record { out = rw none_left; left = rw none_left; counted = omega arith; kept = refl })
    | inr room ↦ elim (Bool-cases (was_sent o)) [
      | inl old ↦
          let h = new_sends-Sends sent m in
          rw (room, old, new_sends)
            (record {
              out = rw old h.out;
              left = rw old h.left;
              counted = rw old (omega (arith, h.counted));
              kept = ap (◌∷◌ (k, o.plaintext)) h.kept;
            })
      | inr new ↦
          let h = new_sends-Sends (sent + 1) m in
          let one_more : window_size - sent ≡ suc (window_size - (sent + 1)) = ground arith in
          rw (room, new, new_sends)
            (record {
              out = rw (new, one_more) (ap (◌∷◌ o.plaintext) h.out);
              left = rw (new, one_more) h.left;
              counted = rw new (omega (arith, h.counted));
              kept = ap (◌∷◌ (k, o.plaintext)) h.kept;
            })
    ]
  ]

-- `take_new_sends` sends the first waiting frames in key order, as many as the window of 32 leaves
-- room for; they and no others are in flight in addition, the rest waits on, and what is queued
-- stays queued.
pub take_new_sends_lem :
    (now : ℕ) (s : Arq)
    → let s' = (take_new_sends now s).0 in
      let out = (take_new_sends now s).1 in
      let room = window_size - in_flight_sent s in
      (out ≡ take room (waiting s.unacked))
      × (waiting s'.unacked ≡ drop room (waiting s.unacked))
      × (in_flight_sent s' ≡ in_flight_sent s + length out)
      × (queue s'.unacked ≡ queue s.unacked)
unfolding take_new_sends
take_new_sends_lem now s =
    let h = new_sends-Sends now (in_flight_sent s) s.unacked in
    (h.out, h.left, unfold in_flight_sent in h.counted, h.kept)

-- The frames in flight never exceed the window.
pub take_new_sends-window :
    (now : ℕ) (s : Arq)
    → in_flight_sent s ≤ window_size
    → in_flight_sent (take_new_sends now s).0 ≤ window_size
take_new_sends-window now s h =
    let (out, left, counted, kept) = take_new_sends_lem now s in
    omega (
      arith,
      counted,
      ap length out,
      length-take (window_size - in_flight_sent s) (waiting s.unacked),
    )
