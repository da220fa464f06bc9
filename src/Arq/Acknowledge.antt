-- ===== src/Arq/Acknowledge.antt =====
-- Selective acknowledgements: what an ACK covers, and its effect on the sender.
pub mod Covers
pub mod Clears
use ppo_se_protocol.Common.{
  ℕ, ◌+◌, ◌-◌, ◌/◌, ◌%◌, ◌^◌, Bool, true, false, ◌&&◌, Option, none, some, List, [], ◌∷◌, not, ltb,
  ◌==◌, if◌then◌else◌, bit_and,
}
use ppo_se_protocol.Frame.{encode_ack}
use ppo_se_protocol.Arq.{Arq, Outgoing, wrapping_sub}

-- The body of `acked` behind the two differences.
unfoldable pub acked_by : ℕ → ℕ → ℕ → Bool
acked_by bitmap ahead behind =
    if ltb ahead 64
    then bit_and (bitmap / 2 ^ ahead) 1 == 1
    else ltb 0 behind && ltb behind 1_000_000

unfoldable pub acked : ℕ → ℕ → ℕ → Bool
unfolding acked_by
acked base bitmap seq = acked_by bitmap (wrapping_sub seq base) (wrapping_sub base seq)

-- The loop of `on_ack` over the map.
unfoldable pub drop_acked : ℕ → ℕ → List (ℕ × Outgoing) → List (ℕ × Outgoing)
unfolding acked
drop_acked base bitmap [] = []
drop_acked base bitmap ((seq, slot) ∷ rest) =
    if acked base bitmap seq
    then drop_acked base bitmap rest
    else (seq, slot) ∷ drop_acked base bitmap rest

unfoldable pub on_ack : ℕ → ℕ → Arq → Arq
unfolding drop_acked
on_ack base bitmap s = record s { unacked = drop_acked base bitmap s.unacked }

unfoldable pub take_ack : Arq → Arq × Option (List ℕ)
take_ack s =
    if not s.pending_ack
    then (s, none)
    else (record s { pending_ack = false }, some (encode_ack s.recv_base s.recv_bits))
