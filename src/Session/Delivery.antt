-- ===== src/Session/Delivery.antt =====
-- A message from one session to another: queued, flushed, delivered and acknowledged.
use ppo_se_protocol.Common.{
  ℕ, ◌+◌, ◌*◌, ◌%◌, ◌^◌, ◌≤◌, ◌<◌, ◌≡◌, ◌≢◌, refl, ap, sym, subst, ◌∙◌, true, false, List, [], ◌∷◌,
  ◌++◌, append-nil, arith, length, none, All, All-imp, if◌then◌else◌, ℕ_discrete,
}
use ppo_se_protocol.Common.Table.{get}
use ppo_se_protocol.Frame.{max_payload}
use ppo_se_protocol.Crypto.{Primitives}
use ppo_se_protocol.Noise.{Snow}
use ppo_se_protocol.Noise.Ordered.{IsOrdered}
use ppo_se_protocol.Arq.{Arq, Outgoing}
use ppo_se_protocol.Arq.Send.{chunks, enqueue}
use ppo_se_protocol.Arq.Send.Chunks.{chunks-IsChunk, length-chunks}
use ppo_se_protocol.Arq.Send.Idle.{texts, numbered, sent_at, enqueue-sends}
use ppo_se_protocol.Arq.Acknowledge.{acked}
use ppo_se_protocol.Arq.Acknowledge.Covers.{acked-eq-received}
use ppo_se_protocol.Arq.Receive.Window.{IsWindow, received}
use ppo_se_protocol.Arq.Receive.Reassembly.{contains}
use ppo_se_protocol.Arq.Receive.Reassembly.Deliver.{Progress, b-le-top}
use ppo_se_protocol.Arq.Exchange.{frame_at-enqueue, exchange, exchange_exactly_once, exchange-after}
use ppo_se_protocol.Udp.{Host}
use ppo_se_protocol.Session.{UdpSession}
use ppo_se_protocol.Session.Channel.{ingest_all, replies}
use ppo_se_protocol.Session.Round.{InStep, Round, flush-Round}
use ppo_se_protocol.Session.InOrder.{
  offsets, offsets_inside, contains-offsets, all_from-offsets, frame-texts, ingest_all-exchange,
  texts-fit,
}
use ppo_se_protocol.Session.Answers.{replies-clear, numbered-All}

-- One side queues a message, and the other one takes its frames in order.
module _ (x : ℕ) (xs : List ℕ) (s r : Arq) (base : ℕ) (fits : length (x ∷ xs) ≤ 32 * max_payload)
    (few : s.next_frag_id < 2 ^ 16)
    (wraps : s.next_seq + length (chunks max_payload (x ∷ xs)) ≤ 2 ^ 32)
    (window : IsWindow r.recv_base r.recv_bits base)
    (room : s.next_seq + length (chunks max_payload (x ∷ xs)) ≤ base + 64)
    (fresh : (i : ℕ)
      → i < length (chunks max_payload (x ∷ xs))
      → received base r.recv_bits (s.next_seq + i) ≡ false)
    (no_buffer : get ℕ_discrete s.next_frag_id r.fragments ≡ none) where
  abbrev parts : List (List ℕ)
  parts = chunks max_payload (x ∷ xs)

  abbrev frames : List (List ℕ)
  frames = texts s.next_frag_id (length parts) s.next_seq 0 parts

  sizes : (1 ≤ length parts) × (length parts ≤ 32) × (s.next_seq ≡ s.next_seq % 2 ^ 32)
  sizes =
      let (low, high) = length-chunks max_payload (x ∷ xs) (omega arith) in
      (omega (arith, low), omega (arith, high, fits), omega (arith, wraps, low))

  in_order : ingest_all frames r ≡ exchange (enqueue (x ∷ xs) s).0 s.next_seq (offsets 0 parts) r
  in_order =
      let sender = (enqueue (x ∷ xs) s).0 in
      let (some_part, few_parts, no_wrap) = sizes in
      ingest_all-exchange s.next_frag_id (length parts) sender s.next_seq 0 s.next_seq (omega arith)
        parts r
        (λ j lt.
          frame-texts s.next_frag_id (length parts) sender s.next_seq j parts lt
            (omega (arith, lt, few_parts)) (omega (arith, wraps, lt))
            (frame_at-enqueue (x ∷ xs) s s.next_seq j (λ e. cc e) (omega (arith, fits)) no_wrap lt))

  delivers : (ingest_all frames r).delivered ≡ r.delivered ++ ((x ∷ xs) ∷ [])
  delivers =
      let complete =
        all_from-offsets 0 parts (contains (offsets 0 parts))
          (λ j low high. contains-offsets 0 j parts low high) in
      ap (λ (q : Arq). q.delivered) in_order
      ∙ exchange_exactly_once (x ∷ xs) s r s.next_seq base (offsets 0 parts) (λ e. cc e)
          (omega (arith, fits)) sizes.2 few window room fresh no_buffer
          (offsets_inside (length parts) 0 parts (omega arith))
      ∙ ap (λ b. if b then r.delivered ++ ((x ∷ xs) ∷ []) else r.delivered) complete

  clears :
      (queue : Arq) (slot : List ℕ → Outgoing)
      → queue.unacked ≡ numbered s.next_frag_id (length parts) slot s.next_seq 0 parts
      → (ingest_all (replies frames r) queue).unacked ≡ []
  clears queue slot e =
      let (some_part, few_parts, no_wrap) = sizes in
      let after = ingest_all frames r in
      let p =
        subst (Progress parts s.next_seq s.next_frag_id r.delivered (contains (offsets 0 parts)))
          (sym in_order)
          (exchange-after (x ∷ xs) s r s.next_seq base (offsets 0 parts) (λ e. cc e)
            (omega (arith, fits)) no_wrap few window room fresh no_buffer
            (offsets_inside (length parts) 0 parts (omega arith))) in
      let top = b-le-top parts s.next_seq s.next_frag_id r.delivered p in
      let near = p.near in
      let wide = p.room in
      let covered = λ (j : ℕ) (lt : j < length parts).
        let n : (s.next_seq + j) % 2 ^ 32 ≡ s.next_seq + j = omega (arith, wraps, lt) in
        ap (acked after.recv_base after.recv_bits) (sym n)
        ∙ acked-eq-received after.recv_base after.recv_bits p.b (s.next_seq + j) p.window
            (omega (arith, top, near)) (omega (arith, wraps, lt, wide))
        ∙ p.seen j lt
        ∙ contains-offsets 0 j parts (omega arith) (omega (arith, lt)) in
      replies-clear s.next_frag_id (length parts) few (omega (arith, few_parts)) s.next_seq 0 parts
        r queue p.b some_part wraps (omega arith) p.window
        (subst (All (λ e. acked after.recv_base after.recv_bits e.0 ≡ true)) (sym e) (
          numbered-All s.next_frag_id (length parts) few (omega (arith, few_parts))
            (λ n. acked after.recv_base after.recv_bits n ≡ true) slot s.next_seq 0 parts covered))

-- A message of 1 to 32 * 1024 bytes is queued at a session whose ARQ has nothing in flight, whose
-- retransmission timeout is not zero, and whose numbers do not wrap; the window of the receiving ARQ
-- has room for its frames and has received none of them, and no buffer stands under its identifier.
-- The sessions are on direct paths in transport mode, over an ordered transport in which each has
-- read as far as the other has written, with sockets that accept every datagram and nothing to be
-- dropped. Then `flush` ends without an error; when the receiver has handled what it sent, in turn,
-- the receiver has delivered the message, once; and when the sender has handled what the receiver
-- answered, in turn, nothing is in flight at the sender, which has sent nothing more, and each has
-- again read as far as the other has written.
pub flush-acknowledged :
    {snow : Snow} (prims : Primitives) (host_s host_r : Host) (laws : IsOrdered snow)
    (a b : snow.TransportState) (s r : UdpSession snow) (message : List ℕ) (base : ℕ)
    → ((i : ℕ) → host_s.delivers i ≡ true)
    → ((i : ℕ) → host_r.delivers i ≡ true)
    → InStep laws a b
    → s.drop_data ≡ 0
    → message ≢ []
    → length message ≤ 32 * max_payload
    → s.arq.unacked ≡ []
    → s.arq.next_frag_id < 2 ^ 16
    → 0 < s.arq.retx
    → s.arq.next_seq + length (chunks max_payload message) ≤ 2 ^ 32
    → IsWindow r.arq.recv_base r.arq.recv_bits base
    → s.arq.next_seq + length (chunks max_payload message) ≤ base + 64
    → ((i : ℕ)
        → i < length (chunks max_payload message)
        → received base r.arq.recv_bits (s.arq.next_seq + i) ≡ false)
    → get ℕ_discrete s.arq.next_frag_id r.arq.fragments ≡ none
    → let queued = record s { arq = (enqueue message s.arq).0 } in
      (w : Round prims host_s host_r laws a b queued r) × (w.r'.arq.delivered
        ≡ r.arq.delivered ++ (message ∷ []))
      × (w.s''.arq.unacked ≡ [])
flush-acknowledged prims host_s host_r laws a b s r [] base goes_s goes_r i none_dropped ne fits
      idle few pos wraps window room fresh no_buffer =
    absurd (ne refl)
flush-acknowledged prims host_s host_r laws a b s r (x ∷ xs) base goes_s goes_r i none_dropped ne
      fits idle few pos wraps window room fresh no_buffer =
    let parts = chunks max_payload (x ∷ xs) in
    let frag_id = s.arq.next_frag_id in
    let sender = (enqueue (x ∷ xs) s.arq).0 in
    let now = host_s.clock s.sock.ticks in
    let frames = texts frag_id (length parts) s.arq.next_seq 0 parts in
    let queue = numbered frag_id (length parts) (sent_at now) s.arq.next_seq 0 parts in
    let sent = record sender { unacked = queue } in
    let (news, due) = enqueue-sends x xs s.arq idle fits wraps pos now in
    let all_fit =
      texts-fit frag_id (length parts) s.arq.next_seq 0 parts
        (All-imp (λ c h. h.1) parts (chunks-IsChunk max_payload (x ∷ xs) (omega arith))) in
    let w =
      flush-Round prims host_s host_r laws a b record s { arq = sender } r sent sent frames []
        goes_s goes_r i none_dropped news due all_fit tt in
    (
      w.0,
      ap (λ (q : Arq). q.delivered) (w.1 ∙ ap (λ fs. ingest_all fs r.arq) (append-nil frames))
          ∙ delivers x xs s.arq r.arq base fits few wraps window room fresh no_buffer,
      ap (λ (q : Arq). q.unacked)
            (w.2 ∙ ap (λ fs. ingest_all (replies fs r.arq) sent) (append-nil frames))
          ∙ clears x xs s.arq r.arq base fits few wraps window room fresh no_buffer sent
              (sent_at now) refl,
    )
