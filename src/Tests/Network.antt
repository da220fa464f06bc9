-- ===== src/Tests/Network.antt =====
-- Runs of network/packet.rs, network/forward.rs and network/replay.rs.
use ppo_se_protocol.Common.{ℕ, ◌≡◌, refl, ◌↔◌, true, false, not, List, [], ◌∷◌, ok, take, arith}
use ppo_se_protocol.Common.Table.{get, bytes_discrete}
use ppo_se_protocol.Wire.{protocol_version, magic_0, magic_1, v4}
use ppo_se_protocol.Packet.{data_packet, to_u8, encode_datagram, decode_outer}
use ppo_se_protocol.Packet.Codec.{decode_outer_accepts}
use ppo_se_protocol.Forward.{encode_forward_body, decode_forward_body}
use ppo_se_protocol.Replay.{ReplayCache, accept, is_some}
use ppo_se_protocol.Replay.Laws.{IsValid, still_live, accept-IsValid, accept_lem}
use ppo_se_protocol.Replay.Window.{accept_all, accept-replayed}

abbrev data_packet_bytes : List ℕ
data_packet_bytes = 0x4a ∷ 0x7f ∷ 3 ∷ 2 ∷ 0 ∷ 0 ∷ 0 ∷ 0 ∷ 5 ∷ 6 ∷ []

encode_data_packet : encode_datagram data_packet (5 ∷ 6 ∷ []) ≡ ok data_packet_bytes
unfolding encode_datagram
encode_data_packet = refl

-- The reserved bytes and the flags of a packet that is accepted may be set.
abbrev odd_bytes : List ℕ
odd_bytes = 0x4a ∷ 0x7f ∷ 3 ∷ 2 ∷ 9 ∷ 1 ∷ 2 ∷ 3 ∷ 5 ∷ []

decode_odd : decode_outer odd_bytes ≡ ok (data_packet, 9, 5 ∷ [])
unfolding decode_outer
decode_odd = refl

decode_outer_accepts_example : (decode_outer odd_bytes ≡ ok (data_packet, 9, 5 ∷ [])) ↔ (
    (r : ℕ) × (s : ℕ) × (t : ℕ) × (odd_bytes
      ≡ magic_0 ∷ magic_1 ∷ protocol_version ∷ to_u8 data_packet ∷ 9 ∷ r ∷ s ∷ t ∷ 5 ∷ []))
decode_outer_accepts_example = decode_outer_accepts odd_bytes data_packet 9 (5 ∷ [])

abbrev forward_bytes : List ℕ
forward_bytes = 10 ∷ 0 ∷ 0 ∷ 7 ∷ 1 ∷ 44 ∷ 8 ∷ 9 ∷ []

encode_forward : encode_forward_body (v4 10 0 0 7 300) (8 ∷ 9 ∷ []) ≡ ok forward_bytes
unfolding encode_forward_body
encode_forward = refl

decode_forward : decode_forward_body forward_bytes ≡ ok (v4 10 0 0 7 300, 8 ∷ 9 ∷ [])
unfolding decode_forward_body
decode_forward = refl

-- A stand-in for the hash: the bytes themselves.
abbrev hash : List ℕ → List ℕ
hash xs = xs

abbrev small_cache : ReplayCache
small_cache = record { seen = (9 ∷ [], 40) ∷ (8 ∷ [], 90) ∷ []; ttl = 100; cap = 2 }

small_cache-IsValid : IsValid small_cache
unfolding get bytes_discrete
small_cache-IsValid = record { distinct = (refl, (refl, tt)); bounded = omega arith }

accept-IsValid_example : IsValid (accept hash (7 ∷ []) 100 small_cache).0
accept-IsValid_example =
    accept-IsValid hash (7 ∷ []) 100 small_cache (omega arith) small_cache-IsValid

accept_lem_example :
    (accept hash (9 ∷ []) 139 small_cache).1
    ≡ not (
        is_some
          (still_live 139 100 (get bytes_discrete (take 16 (hash (9 ∷ []))) small_cache.seen)))
accept_lem_example = accept_lem hash (9 ∷ []) 139 small_cache small_cache-IsValid.distinct

accepted_new : (accept hash (7 ∷ []) 100 small_cache).1 ≡ true
unfolding accept bytes_discrete
accepted_new = refl

-- The packet 9 is evicted, and 7 is still refused after another packet came.
accept-replayed_example :
    (accept hash
      (7 ∷ [])
      150
      (accept_all hash ((6 ∷ [], 120) ∷ []) (accept hash (7 ∷ []) 100 small_cache).0)).1
    ≡ false
accept-replayed_example =
    accept-replayed hash (7 ∷ []) 100 150 ((6 ∷ [], 120) ∷ []) small_cache
      small_cache-IsValid.distinct (omega arith, (omega arith, tt)) accepted_new (omega arith)
      (omega arith, tt) (omega arith)
