-- ===== src/Arq/Exchange.antt =====
-- From `enqueue` at one endpoint to `delivered` at the other, over a network that loses, reorders and
-- repeats frames.
use ppo_se_protocol.Common.{
  ℕ, ◌+◌, ◌*◌, ◌%◌, ◌^◌, ◌≤◌, ◌<◌, ◌≡◌, ◌≢◌, refl, ap, ◌∙◌, List, [], ◌∷◌, ◌++◌, Bool, true, false,
  ◌||◌, if◌then◌else◌, length, get_or, Option, none, some, All, arith, ℕ_discrete,
}
use ppo_se_protocol.Common.Table.{get}
use ppo_se_protocol.Frame.{max_payload, encode_data}
use ppo_se_protocol.Frame.Codec.{decode_inner-encode_data}
use ppo_se_protocol.Arq.{Arq, Outgoing}
use ppo_se_protocol.Arq.Send.{chunks, enqueue}
use ppo_se_protocol.Arq.Send.Chunks.{concat-chunks, length-chunks}
use ppo_se_protocol.Arq.Send.Queue.{enqueue-frame}
use ppo_se_protocol.Arq.Receive.Window.{IsWindow, received}
use ppo_se_protocol.Arq.Receive.Reassembly.{contains, all_from, add}
use ppo_se_protocol.Arq.Receive.Reassembly.Deliver.{
  Progress, Progress-cong, step, step-Progress, initial,
}
use ppo_se_protocol.Arq.Ingest.{ingest}

-- The frame that is queued under a number.
abbrev pub plaintext_of : Option Outgoing → List ℕ
plaintext_of none = []
plaintext_of (some o) = o.plaintext

abbrev pub frame_at : Arq → ℕ → List ℕ
frame_at a k = plaintext_of (get ℕ_discrete k a.unacked)

-- The receiver after frames from `first` on have arrived: those with the offsets `is`, one after the
-- other. An offset may be missing, and may occur more than once.
unfoldable pub exchange : Arq → ℕ → List ℕ → Arq → Arq
unfolding ingest
exchange sender first [] r = r
exchange sender first (i ∷ is) r =
    exchange sender first is (ingest (frame_at sender ((first + i) % 2 ^ 32)) r).0

module _ (cs : List (List ℕ)) (first frag_id : ℕ) (before : List (List ℕ)) where
  pending-Progress :
      (f : ℕ → Bool) (s : Arq)
      → Progress cs first frag_id before f s
      → Progress cs first frag_id before f (record s { pending_ack = true })
  pending-Progress f s p = record {
    b = p.b;
    top = p.top;
    window = p.window;
    room = p.room;
    above = p.above;
    near = p.near;
    nothing_above = p.nothing_above;
    seen = p.seen;
    holds = record { buffer = p.holds.buffer; messages = p.holds.messages };
  }

  ingest-step :
      (i : ℕ) (s : Arq)
      → frag_id < 2 ^ 16
      → i < length cs
      → (ingest (encode_data ((first + i) % 2 ^ 32) frag_id i (length cs) (get_or cs i [])) s).0
        ≡ record (step cs first frag_id before i s) { pending_ack = true }
  unfolding ingest step
  ingest-step i s hf lt = rw (
      decode_inner-encode_data ((first + i) % 2 ^ 32) frag_id i (length cs) (get_or cs i [])
        (omega arith) hf lt)

  module _ (sender : Arq) (few : frag_id < 2 ^ 16) (some_part : 1 ≤ length cs)
      (frames : (i : ℕ)
        → i < length cs
        → frame_at sender ((first + i) % 2 ^ 32)
          ≡ encode_data ((first + i) % 2 ^ 32) frag_id i (length cs) (get_or cs i [])) where
    exchange-Progress :
        (f : ℕ → Bool) (is : List ℕ) (s : Arq)
        → All (λ i. i < length cs) is
        → Progress cs first frag_id before f s
        → Progress cs first frag_id before (λ j. contains is j || f j) (exchange sender first is s)
    unfolding exchange
    exchange-Progress f [] s inside p = p
    exchange-Progress f (i ∷ is) s inside p =
        rw (frames i inside.0, ingest-step i s few inside.0)
          (Progress-cong cs first frag_id before (λ j. contains is j || add f i j)
            (λ j. contains (i ∷ is) j || f j) _ (λ j. ground arith)
            (exchange-Progress (add f i) is
              (record (step cs first frag_id before i s) { pending_ack = true }) inside.1
              (pending-Progress (add f i) (step cs first frag_id before i s)
                (step-Progress cs first frag_id before f i s some_part inside.0 p))))

pub frame_at-enqueue :
    (message : List ℕ) (sender : Arq) (first i : ℕ)
    → message ≢ []
    → length message ≤ 255 * max_payload
    → sender.next_seq ≡ first % 2 ^ 32
    → let parts = chunks max_payload message in
      i < length parts
      → frame_at (enqueue message sender).0 ((first + i) % 2 ^ 32)
        ≡ encode_data
            ((first + i) % 2 ^ 32)
            sender.next_frag_id
            i
            (length parts)
            (get_or parts i [])
frame_at-enqueue message sender first i ne fits e lt =
    ap plaintext_of (enqueue-frame message sender first i ne fits e lt).1

pub some_chunk : (message : List ℕ) → message ≢ [] → 1 ≤ length (chunks max_payload message)
some_chunk [] ne = absurd (ne refl)
some_chunk (x ∷ xs) ne = omega (arith, length-chunks max_payload (x ∷ xs) (omega arith))

-- How far the receiver is after frames of the message.
pub exchange-after :
    (message : List ℕ) (sender receiver : Arq) (first b : ℕ) (is : List ℕ)
    → message ≢ []
    → length message ≤ 255 * max_payload
    → sender.next_seq ≡ first % 2 ^ 32
    → sender.next_frag_id < 2 ^ 16
    → let parts = chunks max_payload message in
      IsWindow receiver.recv_base receiver.recv_bits b
      → first + length parts ≤ b + 64
      → ((i : ℕ) → i < length parts → received b receiver.recv_bits (first + i) ≡ false)
      → get ℕ_discrete sender.next_frag_id receiver.fragments ≡ none
      → All (λ i. i < length parts) is
      → Progress parts first sender.next_frag_id receiver.delivered
          (contains is)
          (exchange (enqueue message sender).0 first is receiver)
exchange-after message sender receiver first b is ne fits e few w room fresh no_buffer inside =
    let parts = chunks max_payload message in
    let before = receiver.delivered in
    let start =
      initial parts first sender.next_frag_id before receiver b w room fresh no_buffer refl
        (some_chunk message ne) in
    Progress-cong parts first sender.next_frag_id before (λ j. contains is j || false) (contains is)
      _ (λ j. ground arith)
      (exchange-Progress parts first sender.next_frag_id before (enqueue message sender).0 few
        (some_chunk message ne) (λ i lt. frame_at-enqueue message sender first i ne fits e lt)
        (λ j. false) is receiver inside start)

-- A sender queues a message of 1 to 255 * 1024 bytes. The receiver's window has room for all its
-- frames, has received none of them, and holds no buffer under its identifier. Then, in whatever
-- order the frames arrive and however often, the receiver delivers the message once if each frame
-- has arrived at least once, and otherwise delivers nothing.
pub exchange_exactly_once :
    (message : List ℕ) (sender receiver : Arq) (first b : ℕ) (is : List ℕ)
    → message ≢ []
    → length message ≤ 255 * max_payload
    → sender.next_seq ≡ first % 2 ^ 32
    → sender.next_frag_id < 2 ^ 16
    → let parts = chunks max_payload message in
      IsWindow receiver.recv_base receiver.recv_bits b
      → first + length parts ≤ b + 64
      → ((i : ℕ) → i < length parts → received b receiver.recv_bits (first + i) ≡ false)
      → get ℕ_discrete sender.next_frag_id receiver.fragments ≡ none
      → All (λ i. i < length parts) is
      → (exchange (enqueue message sender).0 first is receiver).delivered ≡ (
          if all_from (contains is) 0 parts
          then receiver.delivered ++ (message ∷ [])
          else receiver.delivered)
exchange_exactly_once message sender receiver first b is ne fits e few w room fresh no_buffer
      inside =
    let parts = chunks max_payload message in
    let before = receiver.delivered in
    (exchange-after message sender receiver first b is ne fits e few w room fresh no_buffer
      inside).holds.messages
    ∙ ap (λ m. if all_from (contains is) 0 parts then before ++ (m ∷ []) else before)
        (concat-chunks max_payload message (omega arith))
