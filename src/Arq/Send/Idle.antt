-- ===== src/Arq/Send/Idle.antt =====
-- A message at a sender that has nothing in flight: its frames are queued in order, and the first call
-- of `take_new_sends` sends them all.
use ppo_se_protocol.Common.{
  ℕ, ◌+◌, ◌-◌, ◌*◌, ◌%◌, ◌^◌, ◌≤◌, ◌<◌, ◌≡◌, refl, ap, sym, ◌∙◌, true, false, List, [], ◌∷◌, ◌++◌,
  append-nil, append_assoc, subst, ok, arith, length, ltb, leb, All, All-append, some,
}
use ppo_se_protocol.Common.Table.{insert_sorted}
use ppo_se_protocol.Frame.{max_payload, encode_data}
use ppo_se_protocol.Arq.{Arq, Outgoing, window_size}
use ppo_se_protocol.Arq.Send.{
  chunks, unsent, push_frame, enqueue_loop, enqueue, count_sent, in_flight_sent, new_sends,
  take_new_sends, keep_slot, retransmits, take_retransmits, Retransmits, bump_frag_id,
}
use ppo_se_protocol.Arq.Send.Chunks.{length-chunks}
use ppo_se_protocol.Arq.Send.Queue.{enqueue-queued, loop-rest}

module _ {V : Type 0} where
  -- A key above all others goes to the end.
  insert_last :
      (k : ℕ) (v : V) (m : List (ℕ × V))
      → All (λ e. e.0 < k) m
      → insert_sorted k v m ≡ m ++ ((k, v) ∷ [])
  unfolding insert_sorted
  insert_last k v [] h = refl
  insert_last k v ((j, w) ∷ m) h = ground (arith, insert_last k v m)

  below_next : (k : ℕ) (m : List (ℕ × V)) → All (λ e. e.0 < k) m → All (λ e. e.0 < k + 1) m
  below_next k [] h = tt
  below_next k (e ∷ m) h = (omega (arith, h.0), below_next k m h.1)

-- A frame that was sent at `now`.
abbrev pub sent_at : ℕ → List ℕ → Outgoing
sent_at now plaintext = record { plaintext = plaintext; last_sent = some now; attempts = 1 }

module _ (frag_id total : ℕ) where
  -- The frames of chunks, the first of them with number `q` and index `i`.
  abbrev pub texts : ℕ → ℕ → List (List ℕ) → List (List ℕ)
  texts q i [] = []
  texts q i (c ∷ cs) = encode_data q frag_id (i % 2 ^ 8) total c ∷ texts (q + 1) (i + 1) cs

  abbrev pub numbered : (List ℕ → Outgoing) → ℕ → ℕ → List (List ℕ) → List (ℕ × Outgoing)
  numbered slot q i [] = []
  numbered slot q i (c ∷ cs) =
      (q, slot (encode_data q frag_id (i % 2 ^ 8) total c)) ∷ numbered slot (q + 1) (i + 1) cs

  loop-numbered :
      (cs : List (List ℕ)) (q i : ℕ) (s : Arq)
      → s.next_seq ≡ q % 2 ^ 32
      → q + length cs ≤ 2 ^ 32
      → All (λ e. e.0 < q) s.unacked
      → (enqueue_loop cs i frag_id total s).unacked ≡ s.unacked ++ numbered unsent q i cs
  unfolding enqueue_loop push_frame
  loop-numbered [] q i s e room h = sym (append-nil s.unacked)
  loop-numbered (c ∷ cs) q i s e room h =
      let key : s.next_seq ≡ q = omega (arith, e, room) in
      let slot = unsent (encode_data q frag_id (i % 2 ^ 8) total c) in
      let t = push_frame frag_id (i % 2 ^ 8) total c s in
      let pushed : t.unacked ≡ s.unacked ++ ((q, slot) ∷ []) =
        ap (λ k. insert_sorted k (unsent (encode_data k frag_id (i % 2 ^ 8) total c)) s.unacked) key
        ∙ insert_last q slot s.unacked h in
      loop-numbered cs (q + 1) (i + 1) t (omega (arith, e, key)) (omega (arith, room)) (
        subst (All (λ e. e.0 < q + 1)) (sym pushed) (
          All-append (λ e. e.0 < q + 1) s.unacked ((q, slot) ∷ []) (below_next q s.unacked h)
            (omega arith, tt)))
      ∙ ap (λ m. m ++ numbered unsent (q + 1) (i + 1) cs) pushed
      ∙ append_assoc s.unacked ((q, slot) ∷ []) (numbered unsent (q + 1) (i + 1) cs)

  count-numbered : (q i : ℕ) (cs : List (List ℕ)) → count_sent (numbered unsent q i cs) ≡ 0
  count-numbered q i [] = refl
  count-numbered q i (c ∷ cs) = count-numbered (q + 1) (i + 1) cs

  new_sends-numbered :
      (now sent q i : ℕ) (cs : List (List ℕ))
      → sent + length cs ≤ window_size
      → new_sends now sent (numbered unsent q i cs) ≡ (numbered (sent_at now) q i cs, texts q i cs)
  unfolding new_sends
  new_sends-numbered now sent q i [] room = refl
  new_sends-numbered now sent q i (c ∷ cs) room =
      let open_window : leb window_size sent ≡ false = ground arith in
      let rest = new_sends-numbered now (sent + 1) (q + 1) (i + 1) cs (omega (arith, room)) in
      rw (open_window, new_sends)
        (ap
          (λ (r : List (ℕ × Outgoing) × List (List ℕ)). (
            (q, sent_at now (encode_data q frag_id (i % 2 ^ 8) total c)) ∷ r.0,
            encode_data q frag_id (i % 2 ^ 8) total c ∷ r.1,
          ))
          rest)

  retransmits-numbered :
      (now retx limit q i : ℕ) (cs : List (List ℕ))
      → 0 < retx
      → retransmits now retx limit (numbered (sent_at now) q i cs)
        ≡ (numbered (sent_at now) q i cs, ok [])
  unfolding retransmits
  retransmits-numbered now retx limit q i [] pos = refl
  retransmits-numbered now retx limit q i (c ∷ cs) pos =
      let fresh : ltb (now - now) retx ≡ true = ground arith in
      rw (fresh, retransmits)
        (ap (keep_slot (q, sent_at now (encode_data q frag_id (i % 2 ^ 8) total c)))
          (retransmits-numbered now retx limit (q + 1) (i + 1) cs pos))

  take_new_sends-numbered :
      (now q i : ℕ) (cs : List (List ℕ)) (s : Arq)
      → s.unacked ≡ numbered unsent q i cs
      → length cs ≤ window_size
      → take_new_sends now s ≡ (record s { unacked = numbered (sent_at now) q i cs }, texts q i cs)
  unfolding take_new_sends in_flight_sent
  take_new_sends-numbered now q i cs s e few =
      let after : List (ℕ × Outgoing) × List (List ℕ) → Arq × List (List ℕ) =
        λ r. (record s { unacked = r.0 }, r.1) in
      ap (λ m. after (new_sends now (count_sent m) m)) e
      ∙ ap (λ n. after (new_sends now n (numbered unsent q i cs))) (count-numbered q i cs)
      ∙ ap after (new_sends-numbered now 0 q i cs (omega (arith, few)))

  take_retransmits-numbered :
      (now q i : ℕ) (cs : List (List ℕ)) (s : Arq)
      → 0 < s.retx
      → let t = record s { unacked = numbered (sent_at now) q i cs } in
        take_retransmits now t ≡ (t, ok [])
  unfolding take_retransmits
  take_retransmits-numbered now q i cs s pos =
      ap (λ (r : Retransmits). (record s { unacked = r.0 }, r.1))
        (retransmits-numbered now s.retx s.max_attempts q i cs pos)

-- A message of 1 to 32 * 1024 bytes at a sender with an empty queue, whose numbers do not wrap.
module _ (x : ℕ) (xs : List ℕ) (s : Arq) (idle : s.unacked ≡ [])
    (fits : length (x ∷ xs) ≤ 32 * max_payload)
    (room : s.next_seq + length (chunks max_payload (x ∷ xs)) ≤ 2 ^ 32) (pos : 0 < s.retx) where
  abbrev parts : List (List ℕ)
  parts = chunks max_payload (x ∷ xs)

  few_parts : (1 ≤ length parts) × (length parts ≤ 32)
  few_parts =
      let (l, u) = length-chunks max_payload (x ∷ xs) (omega arith) in
      (omega (arith, l), omega (arith, u, fits))

  abbrev bumped : Arq
  bumped = record s { next_frag_id = bump_frag_id s.next_frag_id }

  enqueue-idle :
      ((enqueue (x ∷ xs) s).0.unacked
        ≡ numbered s.next_frag_id (length parts) unsent s.next_seq 0 parts)
      × ((enqueue (x ∷ xs) s).0.retx ≡ s.retx)
  enqueue-idle =
      let few = few_parts in
      let total : length parts % 2 ^ 8 ≡ length parts = omega (arith, few.1) in
      let whole = ap (λ r. r.0) (enqueue-queued x xs s (omega (arith, fits))) in
      let loop =
        loop-numbered s.next_frag_id (length parts % 2 ^ 8) parts s.next_seq 0 bumped
          (omega (arith, room, few.0)) room (subst (All (λ e. e.0 < s.next_seq)) (sym idle) tt) in
      (
        ap (λ (a : Arq). a.unacked) whole
            ∙ loop
            ∙ ap
                (λ m. m ++ numbered s.next_frag_id (length parts % 2 ^ 8) unsent s.next_seq 0 parts)
                idle
            ∙ ap (λ n. numbered s.next_frag_id n unsent s.next_seq 0 parts) total,
        ap (λ (a : Arq). a.retx)
            (whole
              ∙ loop-rest s.next_frag_id (length parts % 2 ^ 8) parts 0 s.next_seq bumped
                  (omega (arith, room, few.0))),
      )

  -- All its frames are new, and none is due again.
  pub enqueue-sends :
      (now : ℕ)
      → let s1 = (enqueue (x ∷ xs) s).0 in
        let sent = numbered s.next_frag_id (length parts) (sent_at now) s.next_seq 0 parts in
        let s2 = record s1 { unacked = sent } in
        (take_new_sends now s1 ≡ (s2, texts s.next_frag_id (length parts) s.next_seq 0 parts))
        × (take_retransmits now s2 ≡ (s2, ok []))
  enqueue-sends now =
      let (queue, retx) = enqueue-idle in
      let s1 = (enqueue (x ∷ xs) s).0 in
      (
        take_new_sends-numbered s.next_frag_id (length parts) now s.next_seq 0 parts s1 queue
            few_parts.1,
        take_retransmits-numbered s.next_frag_id (length parts) now s.next_seq 0 parts s1
            (omega (arith, pos, retx)),
      )
