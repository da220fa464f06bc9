-- ===== src/Onion/Delivery.antt =====
-- A wrapped packet on its way through hops that have just started.
use ppo_se_protocol.Common.{
  ℕ, suc, ◌≤◌, ◌≡◌, refl, sym, ap, subst, ◌∙◌, true, Option, none, some, List, [], ◌∷◌, ◌++◌, map,
  ok, ok-inj, length, All, append-nil,
}
use ppo_se_protocol.Wire.{max_datagram, SocketAddr, IsAddr, datagram, NodeStep}
use ppo_se_protocol.Packet.{onion}
use ppo_se_protocol.Packet.Codec.{encode_datagram_bounds}
use ppo_se_protocol.Crypto.{Primitives, IsSound}
use ppo_se_protocol.Replay.{ReplayCache, accept}
use ppo_se_protocol.Onion.{Draw, OnionRelay, reverse_onto, wrap_loop, wrap_route, step}
use ppo_se_protocol.Onion.Route.{
  Keeper, hop_of, peel_wire, wrap_loop_step, peel_wire-wrapped, secrets_of, seen_by,
  secrets_of-reverse_onto, seen_by-reverse_onto, map-reverse_onto, All-reverse_onto,
}
use ppo_se_protocol.Onion.Hop.{step-peels}

-- A hop that has just started.
abbrev pub started : List ℕ → OnionRelay
started secret = record { local = secret; replay = ppo_se_protocol.Replay.new }

-- The next hop gets the first datagram that a hop sends.
abbrev pub first_sent : List (List ℕ × SocketAddr) → Option (List ℕ × SocketAddr)
first_sent [] = none
first_sent (x ∷ xs) = some x

module _ (prims : Primitives) (from : SocketAddr) (now : ℕ) where
  -- The addresses that the hops send to, one after another, and the datagram that the last one sends.
  unfoldable pub deliver : List (List ℕ) → List ℕ → Option (List SocketAddr × List ℕ)
  unfolding step
  deliver [] wire = some ([], wire)
  deliver (secret ∷ secrets) wire =
      elim (first_sent (step prims (datagram wire from) now true (started secret)).sent) [
        | none ↦ none
        | some (pkt, dest) ↦ elim (deliver secrets pkt) [
          | none ↦ none
          | some (seen, inner) ↦ some (dest ∷ seen, inner)
        ]
      ]

  started-accepts :
      (secret inner : List ℕ)
      → accept prims.blake3 inner now (started secret).replay
        ≡ ((accept prims.blake3 inner now (started secret).replay).0, true)
  unfolding accept
  started-accepts secret inner = refl

  deliver-cons :
      (secret : List ℕ) (secrets : List (List ℕ)) (wire : List ℕ) (next : SocketAddr)
      (payload : List ℕ) (seen : List SocketAddr) (inner : List ℕ)
      → length wire ≤ max_datagram
      → length payload ≤ max_datagram
      → peel_wire prims secret wire ≡ some record { next = next; payload = payload }
      → deliver secrets payload ≡ some (seen, inner)
      → deliver (secret ∷ secrets) wire ≡ some (next ∷ seen, inner)
  unfolding deliver
  deliver-cons secret secrets wire next payload seen inner short fits p d =
      let s =
        step-peels prims wire from record { next = next; payload = payload } now true
          (started secret) (accept prims.blake3 payload now (started secret).replay).0 short p
          (started-accepts secret payload) fits in
      ap
        (λ (n : NodeStep OnionRelay). elim (first_sent n.sent) [
          | none ↦ none
          | some (pkt, dest) ↦ elim (deliver secrets pkt) [
            | none ↦ none
            | some (seen, inner) ↦ some (dest ∷ seen, inner)
          ]
        ])
        s
      ∙ ap (λ o. elim o [ none ↦ none | some (seen, inner) ↦ some (next ∷ seen, inner) ]) d

  deliver-wrap_loop :
      (rng : ℕ → Draw) (ks : List Keeper) (i : ℕ) (next : SocketAddr) (payload wire : List ℕ)
      (secrets : List (List ℕ)) (seen : List SocketAddr) (inner : List ℕ)
      → IsSound prims
      → ((j : ℕ) → length (rng j).nonce ≡ 24)
      → IsAddr next
      → All (λ k. IsAddr k.addr) ks
      → length payload ≤ max_datagram
      → deliver secrets payload ≡ some (seen, inner)
      → wrap_loop prims rng (map (hop_of prims) ks) i next payload ≡ ok wire
      → deliver (secrets_of prims ks secrets) wire ≡ some (seen_by prims ks next seen, inner)
  unfolding wrap_loop
  deliver-wrap_loop rng [] i next payload wire secrets seen inner sound n a addrs fits t h =
      subst (λ w. deliver secrets w ≡ some (seen, inner)) (ok-inj h) t
  deliver-wrap_loop rng (k ∷ ks) i next payload wire secrets seen inner sound n a addrs fits t h =
      let s =
        wrap_loop_step prims rng (hop_of prims k) (map (hop_of prims) ks) i next payload wire h in
      let p = peel_wire-wrapped prims rng k.secret i next payload s.0 s.1 sound (n i) a s.2 s.3 in
      let short = (encode_datagram_bounds onion s.0 s.1 s.3).1 in
      deliver-wrap_loop rng ks (suc i) k.addr s.1 wire (k.secret ∷ secrets) (next ∷ seen) inner
        sound n addrs.0 addrs.1 short
        (deliver-cons k.secret secrets s.1 next payload seen inner short fits p t) s.4

  -- With sound primitives, nonces of 24 bytes and addresses whose fields are in range: hops that
  -- have just started pass a wrapped packet on, each to the one after it and the last to the
  -- destination, and the last datagram is the packet that was wrapped, if that fits a datagram.
  pub deliver-wrap_route :
      (rng : ℕ → Draw) (k : Keeper) (ks : List Keeper) (dest : SocketAddr) (inner wire : List ℕ)
      → IsSound prims
      → ((j : ℕ) → length (rng j).nonce ≡ 24)
      → IsAddr dest
      → All (λ k. IsAddr k.addr) (k ∷ ks)
      → length inner ≤ max_datagram
      → wrap_route prims rng (map (hop_of prims) (k ∷ ks)) dest inner ≡ ok wire
      → deliver (map (λ k. k.secret) (k ∷ ks)) wire
        ≡ some (map (λ k. k.addr) ks ++ (dest ∷ []), inner)
  unfolding wrap_route deliver
  deliver-wrap_route rng k ks dest inner wire sound n a addrs fits h =
      let loop =
        deliver-wrap_loop rng (reverse_onto (k ∷ ks) []) 0 dest inner wire [] [] inner sound n a
          (All-reverse_onto (λ k. IsAddr k.addr) (k ∷ ks) [] addrs tt) fits refl
          (ap (λ hs. wrap_loop prims rng hs 0 dest inner)
              (map-reverse_onto (hop_of prims) (k ∷ ks) [])
            ∙ h) in
      ap (λ ss. deliver ss wire)
        (sym (
          secrets_of-reverse_onto prims (k ∷ ks) [] [] ∙ append-nil (map (λ k. k.secret) (k ∷ ks))))
      ∙ loop
      ∙ ap (λ seen. some (seen, inner)) (seen_by-reverse_onto prims k ks [] dest [])
