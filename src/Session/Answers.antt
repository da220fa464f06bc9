-- ===== src/Session/Answers.antt =====
-- The ACKs that answer the frames of a message, at the sender.
use ppo_se_protocol.Common.{
  ℕ, suc, ◌+◌, ◌%◌, ◌^◌, ◌≤◌, ◌<◌, ◌≡◌, refl, ap, sym, subst, ◌∙◌, true, List, [], ◌∷◌, ◌++◌, ok,
  arith, length, some, All,
}
use ppo_se_protocol.Frame.{data_frame, encode_data, encode_ack, decode_inner}
use ppo_se_protocol.Frame.Codec.{decode_inner-encode_data}
use ppo_se_protocol.Arq.{Arq, Outgoing}
use ppo_se_protocol.Arq.Send.Idle.{texts, numbered}
use ppo_se_protocol.Arq.Acknowledge.{acked}
use ppo_se_protocol.Arq.Acknowledge.Clears.{ingest_ack-All, ingest_ack-none}
use ppo_se_protocol.Arq.Ingest.{ingest, ingest_frame}
use ppo_se_protocol.Arq.Receive.Window.{IsWindow}
use ppo_se_protocol.Session.Channel.{ingest_all, answers_of, replies}

-- The ACK that answers a DATA frame.
data-reply :
    (text : List ℕ) (r : Arq) (seq frag_id index total : ℕ) (payload : List ℕ)
    → decode_inner text ≡ ok (data_frame seq frag_id index total payload)
    → let r' = (ingest text r).0 in
      (ingest text r).1 ≡ ok (some (encode_ack r'.recv_base r'.recv_bits))
unfolding ingest ingest_frame
data-reply text r seq frag_id index total payload e =
    subst
      (λ o.
        let r' = (ingest_frame o r).0 in
        (ingest_frame o r).1 ≡ ok (some (encode_ack r'.recv_base r'.recv_bits)))
      (sym e) refl

module _ (frag_id total : ℕ) (few : frag_id < 2 ^ 16) (small : total ≤ 2 ^ 8) where
  texts-reply :
      (q i : ℕ) (c : List ℕ) (r : Arq)
      → q < 2 ^ 32
      → i < total
      → let text = encode_data q frag_id (i % 2 ^ 8) total c in
        let r' = (ingest text r).0 in
        (ingest text r).1 ≡ ok (some (encode_ack r'.recv_base r'.recv_bits))
  texts-reply q i c r high lt =
      data-reply (encode_data q frag_id (i % 2 ^ 8) total c) r q frag_id (i % 2 ^ 8) total c
        (decode_inner-encode_data q frag_id (i % 2 ^ 8) total c high few (omega (arith, lt, small)))

  -- If the window of the receiver covers all that is in flight when the last frame has come in, the
  -- answers leave nothing in flight.
  pub replies-clear :
      (q i : ℕ) (cs : List (List ℕ)) (r queue : Arq) (b : ℕ)
      → 1 ≤ length cs
      → q + length cs ≤ 2 ^ 32
      → i + length cs ≤ total
      → let after = ingest_all (texts frag_id total q i cs) r in
        IsWindow after.recv_base after.recv_bits b
        → All (λ e. acked after.recv_base after.recv_bits e.0 ≡ true) queue.unacked
        → (ingest_all (replies (texts frag_id total q i cs) r) queue).unacked ≡ []
  unfolding ingest_all replies
  replies-clear q i [] r queue b some_part room inside w h = absurd (omega (arith, some_part))
  replies-clear q i (c ∷ []) r queue b some_part room inside w h =
      let r' = (ingest (encode_data q frag_id (i % 2 ^ 8) total c) r).0 in
      let base_is = w.base_is in
      ap (λ x. (ingest_all (answers_of x ++ []) queue).unacked)
        (texts-reply q i c r (omega (arith, room)) (omega (arith, inside)))
      ∙ ingest_ack-none r'.recv_base r'.recv_bits queue (omega (arith, base_is)) w.width h
  replies-clear q i (c ∷ d ∷ cs) r queue b some_part room inside w h =
      let r' = (ingest (encode_data q frag_id (i % 2 ^ 8) total c) r).0 in
      let rest = texts frag_id total (q + 1) (i + 1) (d ∷ cs) in
      let after = ingest_all rest r' in
      ap (λ x. (ingest_all (answers_of x ++ replies rest r') queue).unacked)
        (texts-reply q i c r (omega (arith, room)) (omega (arith, inside)))
      ∙ replies-clear (q + 1) (i + 1) (d ∷ cs) r'
          (ingest (encode_ack r'.recv_base r'.recv_bits) queue).0 b (omega arith)
          (omega (arith, room)) (omega (arith, inside)) w
          (ingest_ack-All (λ n. acked after.recv_base after.recv_bits n ≡ true) r'.recv_base
            r'.recv_bits queue h)

  pub numbered-All :
      (P : ℕ → Type 0) (slot : List ℕ → Outgoing) (q i : ℕ) (cs : List (List ℕ))
      → ((j : ℕ) → j < length cs → P (q + j))
      → All (λ e. P e.0) (numbered frag_id total slot q i cs)
  numbered-All P slot q i [] h = tt
  numbered-All P slot q i (c ∷ cs) h = (
    subst P (omega arith) (h 0 (omega arith)),
    numbered-All P slot (q + 1) (i + 1) cs
        (λ j lt. subst P (omega arith) (h (suc j) (omega (arith, lt)))),
  )
