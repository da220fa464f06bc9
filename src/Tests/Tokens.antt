-- ===== src/Tests/Tokens.antt =====
-- Runs of rendezvous.rs.
use ppo_se_protocol.Common.{
  ℕ, ◌-◌, ◌≡◌, refl, true, none, some, List, [], ◌∷◌, length, replicate, length-replicate, ltb,
  if◌then◌else◌, arith,
}
use ppo_se_protocol.Common.Table.{get, bytes_discrete}
use ppo_se_protocol.Common.Distinct.{IsDistinct}
use ppo_se_protocol.Wire.{v4, v6, datagram}
use ppo_se_protocol.Rendezvous.{
  RendezvousService, encode_register, encode_lookup, decode_reply, expire,
}
use ppo_se_protocol.Rendezvous.Fate.{Turn, Fate, run, step-Fate}
use ppo_se_protocol.Rendezvous.Laws.{register-lookup}

-- The rendezvous service with one registration, and a token of 32 bytes.
abbrev token : List ℕ
token = replicate 32 7

length-token : length token ≡ 32
length-token = length-replicate {A = ℕ} 32 7

abbrev service : RendezvousService
service = record { map = (replicate 32 5, (v4 10 0 0 1 80, 10)) ∷ []; ttl = 60_000 }

abbrev register_pkt : List ℕ
register_pkt = 0x4a ∷ 0x7f ∷ 3 ∷ 6 ∷ 0 ∷ 0 ∷ 0 ∷ 0 ∷ 1 ∷ token

abbrev lookup_pkt : List ℕ
lookup_pkt = 0x4a ∷ 0x7f ∷ 3 ∷ 6 ∷ 0 ∷ 0 ∷ 0 ∷ 0 ∷ 2 ∷ token

register_run : encode_register token ≡ some register_pkt
unfolding encode_register
register_run = refl

lookup_run : encode_lookup token ≡ some lookup_pkt
unfolding encode_lookup
lookup_run = refl

service-IsDistinct : IsDistinct bytes_discrete service.map
unfolding get
service-IsDistinct = (refl, tt)

register-lookup_example :
    (reply : List ℕ) × ((ppo_se_protocol.Rendezvous.step
        (datagram lookup_pkt (v6 [] 4))
        900
        901
        true
        (ppo_se_protocol.Rendezvous.step
          (datagram register_pkt (v4 10 0 0 3 8080))
          100
          101
          true
          service).state).sent
      ≡ (reply, v6 [] 4) ∷ [])
    × (decode_reply reply ≡ (if ltb (900 - 101) 60_000 then some (v4 10 0 0 3 8080) else none))
register-lookup_example =
    register-lookup token 10 0 0 3 8080 (v6 [] 4) 100 101 900 901 true true service register_pkt
      lookup_pkt length-token (omega arith, omega arith, omega arith, omega arith, omega arith)
      service-IsDistinct register_run lookup_run

-- One registration, and then another one of the same token.
abbrev first_turn : Turn
first_turn = record {
  received = datagram register_pkt (v4 10 0 0 3 8080);
  at = 100;
  stamped = 101;
  delivered = true;
}

abbrev no_tokens : RendezvousService
no_tokens = record { map = []; ttl = 60_000 }

step-Fate_example :
    Fate token
      (datagram register_pkt (v4 10 0 0 9 90))
      900
      901
      (run (first_turn ∷ []) no_tokens).ttl
      (get bytes_discrete token (run (first_turn ∷ []) no_tokens).map)
      (get bytes_discrete token
        (ppo_se_protocol.Rendezvous.step
          (datagram register_pkt (v4 10 0 0 9 90))
          900
          901
          true
          (run (first_turn ∷ []) no_tokens)).state.map)
step-Fate_example =
    step-Fate (first_turn ∷ []) no_tokens token (datagram register_pkt (v4 10 0 0 9 90)) 900 901
      true refl
