-- ===== src/Tests/Reliability.antt =====
-- Runs of reliability/arq.rs and reliability/frame.rs.
use ppo_se_protocol.Common.{
  ◌==◌, ℕ, ◌+◌, ◌-◌, ◌%◌, ◌^◌, ◌≤◌, ◌≡◌, refl, false, none, some, List, [], ◌∷◌, ◌++◌, ok, err,
  length, replicate, length-replicate, get_or, if◌then◌else◌, arith, ℕ_discrete, ◌⊎◌, take, drop,
}
use ppo_se_protocol.Common.Table.{get}
use ppo_se_protocol.Common.Bits.{bit_at_beyond}
use ppo_se_protocol.Frame.{max_payload, encode_data}
use ppo_se_protocol.Arq.{Arq, new, window_size}
use ppo_se_protocol.Arq.Send.{
  chunks, unsent, enqueue, in_flight_sent, take_new_sends, take_retransmits,
}
use ppo_se_protocol.Arq.Send.Chunks.{length-chunks}
use ppo_se_protocol.Arq.Send.Queue.{enqueue-frame}
use ppo_se_protocol.Arq.Send.Window.{waiting, queue, take_new_sends_lem}
use ppo_se_protocol.Arq.Send.Retransmit.{
  resend_all, due_frames, take_retransmits_ok, take_retransmits_give_up,
}
use ppo_se_protocol.Arq.Send.Limit.{
  new_frames, due_again, ack_in, sent_by, count, attempts_left, sent_by-le,
}
use ppo_se_protocol.Arq.Receive.{mark_window}
use ppo_se_protocol.Arq.Receive.Window.{IsWindow, Accepted, Refused, received, mark_window_lem}
use ppo_se_protocol.Arq.Receive.Reassembly.{contains, all_from}
use ppo_se_protocol.Arq.Acknowledge.{on_ack}
use ppo_se_protocol.Arq.Acknowledge.Covers.{on_ack_lem}
use ppo_se_protocol.Arq.Exchange.{exchange, exchange_exactly_once}

-- A message of two frames.
abbrev pub long_message : List ℕ
long_message = 1 ∷ replicate 1499 7

pub length-long_message : length long_message ≡ 1500
length-long_message = omega (arith, length-replicate {A = ℕ} 1499 7)

pub long_message-parts : length (chunks max_payload long_message) ≡ 2
long_message-parts =
    omega (arith, length-chunks max_payload long_message (omega arith), length-long_message)

pub start-IsWindow : IsWindow 0 0 0
start-IsWindow = record { base_is = refl; width = omega arith; missing = refl }

pub start_received : (n : ℕ) → received 0 0 n ≡ false
unfolding received
start_received n = ground (arith, bit_at_beyond 0 (n - 0) 0)

exchange_exactly_once_example :
    (exchange (enqueue long_message new).0 0 (1 ∷ 0 ∷ 1 ∷ []) new).delivered ≡ (
      if all_from (contains (1 ∷ 0 ∷ 1 ∷ [])) 0 (chunks max_payload long_message)
      then [] ++ (long_message ∷ [])
      else [])
unfolding get
exchange_exactly_once_example =
    exchange_exactly_once long_message new new 0 0 (1 ∷ 0 ∷ 1 ∷ []) (λ e. cc e)
      (omega (arith, length-long_message)) refl (omega arith) start-IsWindow
      (omega (arith, long_message-parts)) (λ i lt. start_received (0 + i)) refl
      (
        omega (arith, long_message-parts),
        (omega (arith, long_message-parts), (omega (arith, long_message-parts), tt)),
      )

-- The window with base 2 ^ 32 - 1 after the number 2 ^ 32 arrived ahead of it.
wrapped-IsWindow : IsWindow (2 ^ 32 - 1) 2 (2 ^ 32 - 1)
wrapped-IsWindow = record { base_is = refl; width = omega arith; missing = refl }

mark_window_lem_example :
    Refused 2 (2 ^ 32 - 1) (2 ^ 32 + 3) (mark_window (2 ^ 32 - 1) 2 ((2 ^ 32 + 3) % 2 ^ 32))
    ⊎ Accepted 2 (2 ^ 32 - 1) (2 ^ 32 + 3) (mark_window (2 ^ 32 - 1) 2 ((2 ^ 32 + 3) % 2 ^ 32))
mark_window_lem_example =
    mark_window_lem (2 ^ 32 - 1) 2 (2 ^ 32 - 1) (2 ^ 32 + 3) wrapped-IsWindow (omega arith)
      (omega arith)

-- A sender with three frames: two sent, one waiting.
abbrev busy : Arq
busy = record new {
  next_seq = 3;
  unacked =
      (0, record { plaintext = 10 ∷ []; last_sent = some 50; attempts = 1 })
      ∷ (1, record { plaintext = 11 ∷ []; last_sent = some 300; attempts = 4 })
      ∷ (2, unsent (12 ∷ []))
      ∷ [];
}

on_ack_lem_example :
    get ℕ_discrete (1 % 2 ^ 32) (on_ack 0 2 busy).unacked
    ≡ (if received 0 2 1 then none else get ℕ_discrete (1 % 2 ^ 32) busy.unacked)
on_ack_lem_example =
    on_ack_lem busy 0 2 0 1 (record { base_is = refl; width = omega arith; missing = refl })
      (omega arith) (omega arith)

take_new_sends_lem_example :
    let s' = (take_new_sends 400 busy).0 in
    let out = (take_new_sends 400 busy).1 in
    let room = window_size - in_flight_sent busy in
    (out ≡ take room (waiting busy.unacked))
    × (waiting s'.unacked ≡ drop room (waiting busy.unacked))
    × (in_flight_sent s' ≡ in_flight_sent busy + length out)
    × (queue s'.unacked ≡ queue busy.unacked)
take_new_sends_lem_example = take_new_sends_lem 400 busy

busy_in_flight : in_flight_sent busy ≤ window_size
unfolding in_flight_sent
busy_in_flight = omega arith

enqueue-frame_example :
    (enqueue long_message busy).1 ≡ ok tt
    × get ℕ_discrete ((3 + 1) % 2 ^ 32) (enqueue long_message busy).0.unacked
      ≡ some (
          unsent (
            encode_data
              ((3 + 1) % 2 ^ 32)
              1
              1
              (length (chunks max_payload long_message))
              (get_or (chunks max_payload long_message) 1 [])))
enqueue-frame_example =
    enqueue-frame long_message busy 3 1 (λ e. cc e) (omega (arith, length-long_message)) refl
      (omega (arith, long_message-parts))

abbrev too_long : List ℕ
too_long = replicate 261_121 0

length-too_long : length too_long ≡ 261_121
length-too_long = omega (arith, length-replicate {A = ℕ} 261_121 0)

take_retransmits_ok_example : take_retransmits 400 busy ≡ (
  record busy { unacked = resend_all 400 busy.retx busy.unacked },
  ok (due_frames 400 busy.retx busy.unacked),
)
take_retransmits_ok_example = take_retransmits_ok 400 busy refl

take_retransmits_give_up_example :
    (take_retransmits 600 (record busy { max_attempts = 4 })).1
    ≡ err (record { seq = 1; attempts = 4 })
take_retransmits_give_up_example =
    take_retransmits_give_up 600 (record busy { max_attempts = 4 })
      (record { seq = 1; attempts = 4 }) refl

-- The frame with the byte 11 has one attempt left.
sent_by-le_example :
    count
      (λ p. get_or p 0 0 == 11)
      (sent_by (new_frames 400 ∷ due_again 600 ∷ due_again 900 ∷ ack_in 2 0 ∷ []) busy)
    ≤ attempts_left (λ p. get_or p 0 0 == 11) busy.max_attempts busy.unacked
sent_by-le_example =
    sent_by-le (λ p. get_or p 0 0 == 11)
      (new_frames 400 ∷ due_again 600 ∷ due_again 900 ∷ ack_in 2 0 ∷ []) busy (omega arith)
      (refl, (refl, (refl, tt)))
