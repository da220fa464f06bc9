-- ===== src/Tests/Onions.antt =====
-- Runs of onion.rs, with stand-ins for the primitives.
use ppo_se_protocol.Common.{
  ℕ, ◌+◌, ◌*◌, ◌≡◌, refl, ap, sym, ◌∙◌, true, some, List, [], ◌∷◌, ◌++◌, ◌⊎◌, ok, length, replicate,
  length-replicate, length-append, take, drop, map, arith,
}
use ppo_se_protocol.Wire.{v4, datagram}
use ppo_se_protocol.Packet.{onion, encode_outer, decode_outer, same_type}
use ppo_se_protocol.Replay.{ReplayCache, accept}
use ppo_se_protocol.Crypto.{Primitives, IsSound}
use ppo_se_protocol.Onion.{Draw, OnionRelay, wrap_layer, wrap_route, peel_layer}
use ppo_se_protocol.Onion.Delivery.{deliver, deliver-wrap_route}
use ppo_se_protocol.Onion.Hop.{step-peels, step-peeled}
use ppo_se_protocol.Onion.Route.{Keeper, peel_wire, hop_of, travel, travel-wrap_route}
use ppo_se_protocol.Onion.Size.{length-wrap_route, wrap_route-total}

-- Keys of 32 bytes, an exchange that gives the empty secret, and a cipher that prefixes 16 bytes.
abbrev tag : List ℕ
tag = replicate 16 170

abbrev pub sound : Primitives
sound = record {
  blake3 = λ xs. take 32 xs;
  public_key = λ secret. replicate 32 1;
  diffie_hellman = λ secret peer. [];
  encrypt = λ key nonce aad msg. some (tag ++ msg);
  decrypt = λ key nonce aad ct. some (drop 16 ct);
}

some-inj : {x y : List ℕ} → some x ≡ some y → x ≡ y
some-inj h = cc h

toy_length : (msg ct : List ℕ) → tag ++ msg ≡ ct → length ct ≡ 16 + length msg
toy_length msg ct h = sym (ap length h) ∙ length-append tag msg

pub sound-IsSound : IsSound sound
sound-IsSound = record {
  length_public_key = λ secret. length-replicate {A = ℕ} 32 1;
  agrees = λ secret other. refl;
  encrypts = λ key nonce aad msg h. (tag ++ msg, refl);
  length_encrypt = λ key nonce aad msg ct h. toy_length msg ct (some-inj h);
  decrypts = λ key nonce aad msg ct h. ap (λ c. some (drop 16 c)) (sym (some-inj h));
}

abbrev rng : ℕ → Draw
rng i = record { eph = i ∷ []; nonce = replicate 24 2 }

rng-nonce : (i : ℕ) → length (rng i).nonce ≡ 24
rng-nonce i = length-replicate {A = ℕ} 24 2

abbrev first_keeper : Keeper
first_keeper = record { addr = v4 10 0 0 1 256; secret = 1 ∷ [] }

abbrev last_keeper : Keeper
last_keeper = record { addr = v4 10 0 0 2 512; secret = 2 ∷ [] }

abbrev toy_layer : List ℕ → List ℕ
toy_layer plain = replicate 32 1 ++ (replicate 24 2 ++ (tag ++ plain))

abbrev inner_wire : List ℕ
inner_wire = encode_outer onion 0 ++ toy_layer (10 ∷ 0 ∷ 0 ∷ 9 ∷ 0 ∷ 9 ∷ 42 ∷ 43 ∷ [])

abbrev route_wire : List ℕ
route_wire = encode_outer onion 0 ++ toy_layer (10 ∷ 0 ∷ 0 ∷ 2 ∷ 2 ∷ 0 ∷ inner_wire)

wrap_layer_run :
    wrap_layer sound (rng 0) (sound.public_key (2 ∷ [])) (v4 10 0 0 9 9) (42 ∷ 43 ∷ [])
    ≡ ok (toy_layer (10 ∷ 0 ∷ 0 ∷ 9 ∷ 0 ∷ 9 ∷ 42 ∷ 43 ∷ []))
unfolding wrap_layer
wrap_layer_run = refl

wrap_route_run :
    wrap_route sound rng
      (map (hop_of sound) (first_keeper ∷ last_keeper ∷ []))
      (v4 10 0 0 9 9)
      (42 ∷ 43 ∷ [])
    ≡ ok route_wire
unfolding wrap_route encode_outer
wrap_route_run = refl

travel-wrap_route_example :
    travel sound (map (λ k. k.secret) (first_keeper ∷ last_keeper ∷ [])) route_wire
    ≡ some (map (λ k. k.addr) (last_keeper ∷ []) ++ (v4 10 0 0 9 9 ∷ []), 42 ∷ 43 ∷ [])
travel-wrap_route_example =
    travel-wrap_route sound rng first_keeper (last_keeper ∷ []) (v4 10 0 0 9 9) (42 ∷ 43 ∷ [])
      route_wire sound-IsSound rng-nonce
      (omega arith, omega arith, omega arith, omega arith, omega arith)
      (
        (omega arith, omega arith, omega arith, omega arith, omega arith),
        ((omega arith, omega arith, omega arith, omega arith, omega arith), tt),
      )
      wrap_route_run

length-wrap_route_example : length route_wire ≡ 2 + 86 * 2
length-wrap_route_example =
    length-wrap_route sound rng (map (hop_of sound) (first_keeper ∷ last_keeper ∷ []))
      (v4 10 0 0 9 9) (42 ∷ 43 ∷ []) route_wire sound-IsSound rng-nonce wrap_route_run

wrap_route-total_example :
    (wire : List ℕ) × (wrap_route sound rng
        (map (hop_of sound) (first_keeper ∷ last_keeper ∷ []))
        (v4 10 0 0 9 9)
        (42 ∷ 43 ∷ [])
      ≡ ok wire)
wrap_route-total_example =
    wrap_route-total sound rng (hop_of sound first_keeper) (hop_of sound last_keeper ∷ [])
      (v4 10 0 0 9 9) (42 ∷ 43 ∷ []) sound-IsSound rng-nonce tt (tt, (tt, tt)) (omega arith)

-- The first hop of the route above.
abbrev first_hop : OnionRelay
first_hop = record { local = 1 ∷ []; replay = record { seen = []; ttl = 100; cap = 4 } }

abbrev first_kept : ReplayCache
first_kept = record { seen = (take 16 (take 32 inner_wire), 7) ∷ []; ttl = 100; cap = 4 }

first_accepts : accept sound.blake3 inner_wire 7 first_hop.replay ≡ (first_kept, true)
unfolding accept encode_outer
first_accepts = refl

first_peels :
    peel_wire sound (1 ∷ []) route_wire
    ≡ some record { next = v4 10 0 0 2 512; payload = inner_wire }
unfolding peel_wire peel_layer encode_outer decode_outer same_type
first_peels = refl

step-peeled_example :
    ((ppo_se_protocol.Onion.step sound (datagram route_wire (v4 10 0 0 3 33)) 7 true first_hop).sent
      ≡ [])
    ⊎ ppo_se_protocol.Onion.Hop.Forwarded sound
        (datagram route_wire (v4 10 0 0 3 33))
        7
        first_hop
        (ppo_se_protocol.Onion.step sound (datagram route_wire (v4 10 0 0 3 33)) 7 true first_hop)
step-peeled_example = step-peeled sound (datagram route_wire (v4 10 0 0 3 33)) 7 true first_hop

deliver-wrap_route_example :
    deliver sound
      (v4 10 0 0 3 33)
      7
      (map (λ k. k.secret) (first_keeper ∷ last_keeper ∷ []))
      route_wire
    ≡ some (map (λ k. k.addr) (last_keeper ∷ []) ++ (v4 10 0 0 9 9 ∷ []), 42 ∷ 43 ∷ [])
deliver-wrap_route_example =
    deliver-wrap_route sound (v4 10 0 0 3 33) 7 rng first_keeper (last_keeper ∷ []) (v4 10 0 0 9 9)
      (42 ∷ 43 ∷ []) route_wire sound-IsSound rng-nonce
      (omega arith, omega arith, omega arith, omega arith, omega arith)
      (
        (omega arith, omega arith, omega arith, omega arith, omega arith),
        ((omega arith, omega arith, omega arith, omega arith, omega arith), tt),
      )
      (omega arith) wrap_route_run
