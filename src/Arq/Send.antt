-- ===== src/Arq/Send.antt =====
-- The sending half: fragmentation, the send window and retransmission.
pub mod Chunks
pub mod Queue
pub mod Window
pub mod Retransmit
pub mod Limit
pub mod Idle
use ppo_se_protocol.Common.{
  ℕ, zero, suc, ◌+◌, ◌-◌, ◌%◌, ◌^◌, ◌≡◌, Bool, true, false, Option, none, some, List, [], ◌∷◌,
  Result, ok, err, ltb, leb, ◌==◌, if◌then◌else◌, length, take, drop, map,
}
use ppo_se_protocol.Common.Table.{insert_sorted}
use ppo_se_protocol.Frame.{max_payload, encode_data}
use ppo_se_protocol.Arq.{Arq, Outgoing, ArqError, too_large, ArqGiveUp, window_size}

-- `slice::chunks`, with fuel: a chunk takes an element at least, so the length is enough.
unfoldable pub chunk_loop {ℓ} : {A : Type ℓ} → ℕ → ℕ → List A → List (List A)
chunk_loop zero size xs = []
chunk_loop (suc fuel) size [] = []
chunk_loop (suc fuel) size (x ∷ xs) = take size (x ∷ xs) ∷ chunk_loop fuel size (drop size (x ∷ xs))

unfoldable pub chunks {ℓ} : {A : Type ℓ} → ℕ → List A → List (List A)
unfolding chunk_loop
chunks size xs = chunk_loop (length xs) size xs

-- A frame that waits for its first send.
abbrev pub unsent : List ℕ → Outgoing
unsent plaintext = record { plaintext = plaintext; last_sent = none; attempts = 0 }

-- Both loops of `enqueue` do this for a frame.
unfoldable pub push_frame : ℕ → ℕ → ℕ → List ℕ → Arq → Arq
push_frame frag_id index total chunk s =
    let seq = s.next_seq in
    record s {
      next_seq = (seq + 1) % 2 ^ 32;
      unacked = insert_sorted seq (unsent (encode_data seq frag_id index total chunk)) s.unacked;
    }

unfoldable pub enqueue_one : List ℕ → Arq → Arq × Result ArqError (Unit {0})
unfolding push_frame
enqueue_one message s = (push_frame 0 0 1 message s, ok tt)

-- The `for` loop of `enqueue`; `i` is the counter of `enumerate`.
unfoldable pub enqueue_loop : List (List ℕ) → ℕ → ℕ → ℕ → Arq → Arq
unfolding push_frame
enqueue_loop [] i frag_id total s = s
enqueue_loop (chunk ∷ rest) i frag_id total s =
    enqueue_loop rest (i + 1) frag_id total (push_frame frag_id (i % 2 ^ 8) total chunk s)

-- The identifier after `id`: 0 is skipped at the wrap.
unfoldable pub bump_frag_id : ℕ → ℕ
bump_frag_id id = let next = (id + 1) % 2 ^ 16 in if next == 0 then 1 else next

unfoldable pub enqueue_chunks : List (List ℕ) → Arq → Arq × Result ArqError (Unit {0})
enqueue_chunks parts s = if ltb 255 (length parts) then (s, err too_large) else (
  enqueue_loop parts 0 s.next_frag_id (length parts % 2 ^ 8)
      (record s { next_frag_id = bump_frag_id s.next_frag_id }),
  ok tt,
)

unfoldable pub enqueue : List ℕ → Arq → Arq × Result ArqError (Unit {0})
unfolding enqueue_one enqueue_chunks
enqueue [] s = enqueue_one [] s
enqueue (b ∷ bs) s = enqueue_chunks (chunks max_payload (b ∷ bs)) s

abbrev pub was_sent : Outgoing → Bool
was_sent o = elim o.last_sent [ none ↦ false | some _ ↦ true ]

abbrev pub count_sent : List (ℕ × Outgoing) → ℕ
count_sent [] = 0
count_sent ((_, o) ∷ m) = if was_sent o then suc (count_sent m) else count_sent m

unfoldable pub in_flight_sent : Arq → ℕ
in_flight_sent s = count_sent s.unacked

-- The loop of `take_new_sends` over the map in key order: the map after it, and `out`.
unfoldable pub new_sends : ℕ → ℕ → List (ℕ × Outgoing) → List (ℕ × Outgoing) × List (List ℕ)
new_sends now sent [] = ([], [])
new_sends now sent ((seq, slot) ∷ rest) = elim (leb window_size sent) [
  | true ↦ ((seq, slot) ∷ rest, [])
  | false ↦ elim (was_sent slot) [
    | true ↦ let (m, out) = new_sends now sent rest in ((seq, slot) ∷ m, out)
    | false ↦
        let (m, out) = new_sends now (sent + 1) rest in
        ((seq, record slot { last_sent = some now; attempts = 1 }) ∷ m, slot.plaintext ∷ out)
  ]
]

unfoldable pub take_new_sends : ℕ → Arq → Arq × List (List ℕ)
unfolding new_sends in_flight_sent
take_new_sends now s =
    let (m, out) = new_sends now (in_flight_sent s) s.unacked in (record s { unacked = m }, out)

-- The loop of `take_retransmits`: what was changed before a give-up stays changed.
abbrev pub Retransmits : Type 0
Retransmits = List (ℕ × Outgoing) × Result ArqGiveUp (List (List ℕ))

abbrev pub keep_slot : ℕ × Outgoing → Retransmits → Retransmits
keep_slot e (m, r) = (e ∷ m, r)

abbrev pub send_slot : ℕ × Outgoing → List ℕ → Retransmits → Retransmits
send_slot e pt (m, ok out) = (e ∷ m, ok (pt ∷ out))
send_slot e pt (m, err g) = (e ∷ m, err g)

unfoldable pub retransmits : ℕ → ℕ → ℕ → List (ℕ × Outgoing) → Retransmits
retransmits now retx max_attempts [] = ([], ok [])
retransmits now retx max_attempts ((seq, slot) ∷ rest) = elim slot.last_sent [
  | none ↦ keep_slot (seq, slot) (retransmits now retx max_attempts rest)
  | some last ↦ elim (ltb (now - last) retx) [
    | true ↦ keep_slot (seq, slot) (retransmits now retx max_attempts rest)
    | false ↦ elim (leb max_attempts slot.attempts) [
      | true ↦ ((seq, slot) ∷ rest, err (record { seq = seq; attempts = slot.attempts }))
      | false ↦
          send_slot (seq, record slot { attempts = slot.attempts + 1; last_sent = some now })
            slot.plaintext (retransmits now retx max_attempts rest)
    ]
  ]
]

unfoldable pub take_retransmits : ℕ → Arq → Arq × Result ArqGiveUp (List (List ℕ))
unfolding retransmits
take_retransmits now s =
    let (m, r) = retransmits now s.retx s.max_attempts s.unacked in (record s { unacked = m }, r)

abbrev pub unacked_len : Arq → ℕ
unacked_len s = length s.unacked

abbrev pub set_retx : ℕ → Arq → Arq
set_retx d s = record s { retx = d }
