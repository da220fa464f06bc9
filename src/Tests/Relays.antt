-- ===== src/Tests/Relays.antt =====
-- Runs of relay.rs.
use ppo_se_protocol.Common.{
  false, ℕ, ◌+◌, ◌≡◌, refl, true, List, [], ◌∷◌, ◌++◌, ◌⊎◌, ok, length, arith,
}
use ppo_se_protocol.Wire.{outer_header_len, v4, datagram, sends}
use ppo_se_protocol.Packet.{forward, encode_outer, decode_outer}
use ppo_se_protocol.Forward.{encode_forward_body, decode_forward_body}
use ppo_se_protocol.Replay.{ReplayCache, accept}
use ppo_se_protocol.Relay.{Relay}
use ppo_se_protocol.Relay.Laws.{Forwarded, step-forwards, step-sent}
use ppo_se_protocol.Relay.{Turn}
use ppo_se_protocol.Relay.Replays.{run, run-replayed}

abbrev hash : List ℕ → List ℕ
hash xs = xs

abbrev empty_relay : Relay
empty_relay = record { replay = record { seen = []; ttl = 100; cap = 2 } }

abbrev wrapped_bytes : List ℕ
wrapped_bytes = 10 ∷ 0 ∷ 0 ∷ 7 ∷ 1 ∷ 44 ∷ 8 ∷ 9 ∷ []

encode_wrapped : encode_forward_body (v4 10 0 0 7 300) (8 ∷ 9 ∷ []) ≡ ok wrapped_bytes
unfolding encode_forward_body
encode_wrapped = refl

abbrev kept_cache : ReplayCache
kept_cache = record { seen = (8 ∷ 9 ∷ [], 5) ∷ []; ttl = 100; cap = 2 }

accepted : accept hash (8 ∷ 9 ∷ []) 5 empty_relay.replay ≡ (kept_cache, true)
unfolding accept
accepted = refl

step-forwards_example :
    (pkt : List ℕ) × (out_body : List ℕ) × (ppo_se_protocol.Relay.step hash
        (datagram (encode_outer forward 0 ++ wrapped_bytes) (v4 127 0 0 1 9000))
        5
        true
        empty_relay
      ≡ sends record { replay = kept_cache } true pkt (v4 10 0 0 7 300))
    × (decode_outer pkt ≡ ok (forward, 0, out_body))
    × (decode_forward_body out_body ≡ ok (v4 127 0 0 1 9000, 8 ∷ 9 ∷ []))
    × (length pkt ≡ outer_header_len + length wrapped_bytes)
step-forwards_example =
    step-forwards hash 127 0 0 1 9000 (v4 10 0 0 7 300) 0 (8 ∷ 9 ∷ []) wrapped_bytes 5 true
      empty_relay kept_cache (omega arith, omega arith, omega arith, omega arith, omega arith)
      (omega arith, omega arith, omega arith, omega arith, omega arith) encode_wrapped accepted

step-sent_example :
    ((ppo_se_protocol.Relay.step hash
        (datagram (encode_outer forward 0 ++ wrapped_bytes) (v4 127 0 0 1 9000))
        5
        true
        empty_relay).sent
      ≡ [])
    ⊎ Forwarded hash
        (datagram (encode_outer forward 0 ++ wrapped_bytes) (v4 127 0 0 1 9000))
        5
        empty_relay
        (ppo_se_protocol.Relay.step hash
          (datagram (encode_outer forward 0 ++ wrapped_bytes) (v4 127 0 0 1 9000))
          5
          true
          empty_relay)
step-sent_example =
    step-sent hash (datagram (encode_outer forward 0 ++ wrapped_bytes) (v4 127 0 0 1 9000)) 5 true
      empty_relay

-- Between the two copies another packet comes, and the second copy has another destination.
abbrev other_bytes : List ℕ
other_bytes = 10 ∷ 0 ∷ 0 ∷ 8 ∷ 1 ∷ 44 ∷ 8 ∷ 9 ∷ []

abbrev between : List Turn
between =
    record {
      received =
          datagram (encode_outer forward 0 ++ (10 ∷ 0 ∷ 0 ∷ 7 ∷ 1 ∷ 44 ∷ 5 ∷ []))
            (v4 127 0 0 1 9000);
      at = 40;
      delivered = false;
    }
    ∷ []

unwrap_first : decode_forward_body wrapped_bytes ≡ ok (v4 10 0 0 7 300, 8 ∷ 9 ∷ [])
unfolding decode_forward_body
unwrap_first = refl

unwrap_second : decode_forward_body other_bytes ≡ ok (v4 10 0 0 8 300, 8 ∷ 9 ∷ [])
unfolding decode_forward_body
unwrap_second = refl

accepts_first : (accept hash (8 ∷ 9 ∷ []) 5 empty_relay.replay).1 ≡ true
unfolding accept
accepts_first = refl

run-replayed_example :
    (ppo_se_protocol.Relay.step hash
      (datagram (encode_outer forward 1 ++ other_bytes) (v4 127 0 0 2 9000))
      60
      true
      (run hash between
        (ppo_se_protocol.Relay.step hash
          (datagram (encode_outer forward 0 ++ wrapped_bytes) (v4 127 0 0 1 9000))
          5
          true
          empty_relay).state)).sent
    ≡ []
run-replayed_example =
    run-replayed hash (v4 127 0 0 1 9000) (v4 10 0 0 7 300) (v4 127 0 0 2 9000) (v4 10 0 0 8 300) 0
      1 (8 ∷ 9 ∷ []) wrapped_bytes other_bytes 5 60 true true between empty_relay tt tt
      (omega arith) (omega arith) unwrap_first unwrap_second accepts_first (omega arith)
      (omega arith, tt) (omega arith)
