-- ===== src/Arq/Send/Queue.antt =====
-- What `enqueue` adds to the queue. A sequence number of the abstract view is never reduced modulo
-- 2 ^ 32.
use ppo_se_protocol.Common.{
  ℕ, zero, suc, ◌+◌, ◌*◌, ◌%◌, ◌^◌, ◌≤◌, ◌<◌, ◌≡◌, ◌≢◌, refl, ap, ◌∙◌, List, [], ◌∷◌, length,
  get_or, some, ok, err, arith, lt→ltb, le→ltb, ℕ_discrete,
}
use ppo_se_protocol.Common.Table.{
  get, get-insert_sorted_self, get-insert_sorted_ne, IsAscending, insert_sorted-IsAscending,
}
use ppo_se_protocol.Frame.{max_payload, encode_data}
use ppo_se_protocol.Arq.{Arq, too_large}
use ppo_se_protocol.Arq.Send.{chunks, unsent, push_frame, enqueue_loop, bump_frag_id, enqueue}
use ppo_se_protocol.Arq.Send.Chunks.{length-chunks}

module _ (frag_id total : ℕ) where
  -- The loop writes the numbers from `q` on, and no other.
  loop-others :
      (cs : List (List ℕ)) (i q k : ℕ) (s : Arq)
      → s.next_seq ≡ q % 2 ^ 32
      → ((j : ℕ) → j < length cs → (q + j) % 2 ^ 32 ≢ k)
      → get ℕ_discrete k (enqueue_loop cs i frag_id total s).unacked ≡ get ℕ_discrete k s.unacked
  unfolding enqueue_loop
  loop-others [] i q k s e h = refl
  loop-others (c ∷ cs) i q k s e h =
      loop-others cs (i + 1) (q + 1) k (push_frame frag_id (i % 2 ^ 8) total c s) (omega arith)
        (λ j lt eq. h (suc j) (omega arith) (omega arith))
      ∙ get-insert_sorted_ne s.next_seq k _ s.unacked (λ eq. h 0 (omega arith) (omega arith))

  loop-lookup :
      (cs : List (List ℕ)) (i q j n p : ℕ) (s : Arq)
      → s.next_seq ≡ q % 2 ^ 32
      → n ≡ q + j
      → p ≡ i + j
      → j < length cs
      → length cs ≤ 2 ^ 16
      → get ℕ_discrete (n % 2 ^ 32) (enqueue_loop cs i frag_id total s).unacked
        ≡ some (unsent (encode_data (n % 2 ^ 32) frag_id (p % 2 ^ 8) total (get_or cs j [])))
  unfolding enqueue_loop
  loop-lookup [] i q j n p s e en ep lt few = absurd (omega arith)
  loop-lookup (c ∷ cs) i q zero n p s e en ep lt few =
      let key : n % 2 ^ 32 ≡ s.next_seq = omega arith in
      let index : p % 2 ^ 8 ≡ i % 2 ^ 8 = omega arith in
      rw (key, index)
        (loop-others cs (i + 1) (q + 1) s.next_seq (push_frame frag_id (i % 2 ^ 8) total c s)
            (omega arith) (λ j lt eq. omega arith)
          ∙ get-insert_sorted_self s.next_seq _ s.unacked)
  loop-lookup (c ∷ cs) i q (suc j) n p s e en ep lt few =
      loop-lookup cs (i + 1) (q + 1) j n p (push_frame frag_id (i % 2 ^ 8) total c s) (omega arith)
        (omega arith) (omega arith) (omega arith) (omega arith)

  -- The loop touches the queue and the next number, and nothing else.
  pub loop-rest :
      (cs : List (List ℕ)) (i q : ℕ) (s : Arq)
      → s.next_seq ≡ q % 2 ^ 32
      → enqueue_loop cs i frag_id total s ≡ record s {
        next_seq = (q + length cs) % 2 ^ 32;
        unacked = (enqueue_loop cs i frag_id total s).unacked;
      }
  unfolding enqueue_loop
  loop-rest [] i q s e = ground arith
  loop-rest (c ∷ cs) i q s e =
      let t = push_frame frag_id (i % 2 ^ 8) total c s in
      loop-rest cs (i + 1) (q + 1) t (omega arith)
      ∙ ap
          (λ (n : ℕ). record s {
            next_seq = n % 2 ^ 32;
            unacked = (enqueue_loop cs (i + 1) frag_id total t).unacked;
          })
          {x = q + 1 + length cs} {y = q + suc (length cs)} (omega arith)

  loop-IsAscending :
      (cs : List (List ℕ)) (i : ℕ) (s : Arq)
      → IsAscending s.unacked
      → IsAscending (enqueue_loop cs i frag_id total s).unacked
  unfolding enqueue_loop
  loop-IsAscending [] i s h = h
  loop-IsAscending (c ∷ cs) i s h =
      loop-IsAscending cs (i + 1) (push_frame frag_id (i % 2 ^ 8) total c s)
        (insert_sorted-IsAscending s.next_seq _ s.unacked h)

-- A message of more than 255 * 1024 bytes is refused as too large, and nothing changes.
pub enqueue-too_large :
    (message : List ℕ) (s : Arq)
    → 255 * max_payload < length message
    → enqueue message s ≡ (s, err too_large)
unfolding enqueue
enqueue-too_large [] s h = absurd (omega arith)
enqueue-too_large (x ∷ xs) s h =
    let many : 255 < length (chunks max_payload (x ∷ xs)) =
      omega (arith, length-chunks max_payload (x ∷ xs) (omega arith)) in
    rw (lt→ltb 255 (length (chunks max_payload (x ∷ xs))) many)

-- The state after a message that fits: identifiers and numbers move on, and the queue holds the
-- frames of the chunks as well.
abbrev pub queued : List ℕ → Arq → Arq
queued message s =
    enqueue_loop (chunks max_payload message) 0 s.next_frag_id
      (length (chunks max_payload message) % 2 ^ 8)
      (record s { next_frag_id = bump_frag_id s.next_frag_id })

few_chunks :
    (message : List ℕ)
    → length message ≤ 255 * max_payload
    → length (chunks max_payload message) ≤ 255
few_chunks message h = omega (arith, length-chunks max_payload message (omega arith))

pub enqueue-queued :
    (x : ℕ) (xs : List ℕ) (s : Arq)
    → length (x ∷ xs) ≤ 255 * max_payload
    → enqueue (x ∷ xs) s ≡ (queued (x ∷ xs) s, ok tt)
unfolding enqueue
enqueue-queued x xs s h = rw (le→ltb _ _ (few_chunks (x ∷ xs) h))

-- A message of 1 to 255 * 1024 bytes is queued: for each of its chunks, frame `j` waits under the
-- `j`-th number from the next one on, carrying the chunk, its index and the number of chunks.
pub enqueue-frame :
    (message : List ℕ) (s : Arq) (first j : ℕ)
    → message ≢ []
    → length message ≤ 255 * max_payload
    → s.next_seq ≡ first % 2 ^ 32
    → let parts = chunks max_payload message in
      j < length parts
      → (enqueue message s).1 ≡ ok tt
        × get ℕ_discrete ((first + j) % 2 ^ 32) (enqueue message s).0.unacked
          ≡ some (
              unsent (
                encode_data
                  ((first + j) % 2 ^ 32)
                  s.next_frag_id
                  j
                  (length parts)
                  (get_or parts j [])))
enqueue-frame [] s first j ne fits e lt = absurd (ne refl)
enqueue-frame (x ∷ xs) s first j ne fits e lt =
    let parts = chunks max_payload (x ∷ xs) in
    let few = few_chunks (x ∷ xs) fits in
    let total : length parts % 2 ^ 8 ≡ length parts = omega (arith, few) in
    let index : j % 2 ^ 8 ≡ j = omega (arith, few) in
    let found =
      loop-lookup s.next_frag_id (length parts % 2 ^ 8) parts 0 first j (first + j) j
        (record s { next_frag_id = bump_frag_id s.next_frag_id }) e refl (omega arith) lt
        (omega (arith, few)) in
    rw (enqueue-queued x xs s fits, total) (refl, rw (total, index) at found)
