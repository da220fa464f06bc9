-- ===== src/Onion/Size.antt =====
-- The sizes of wrapped routes, and when wrapping succeeds.
use ppo_se_protocol.Common.{
  ℕ, suc, ◌+◌, ◌*◌, ◌≤◌, ◌≡◌, refl, ap, ◌∙◌, List, [], ◌∷◌, ok, ◌>>=◌, ok-inj, length, All, arith,
}
use ppo_se_protocol.Wire.{max_datagram, outer_header_len, SocketAddr, v4, v6}
use ppo_se_protocol.Packet.{onion, encode_datagram}
use ppo_se_protocol.Packet.Codec.{encode_datagram_bounds, encode_datagram-fits}
use ppo_se_protocol.Crypto.{Primitives, IsSound}
use ppo_se_protocol.Onion.{OnionHop, Draw, layer_overhead, reverse_onto, wrap_loop, wrap_route}
use ppo_se_protocol.Onion.Layer.{length-wrap_layer, wrap_layer-total}
use ppo_se_protocol.Onion.Route.{wrap_loop_step, All-reverse_onto}

abbrev pub IsV4 : SocketAddr → Type 0
IsV4 (v4 a b c d port) = Unit
IsV4 (v6 octets port) = ⊥

pub length-reverse_onto {ℓ} :
    {A : Type ℓ} (xs acc : List A) → length (reverse_onto xs acc) ≡ length xs + length acc
unfolding reverse_onto
length-reverse_onto [] acc = omega arith
length-reverse_onto (x ∷ xs) acc = omega (arith, length-reverse_onto xs (x ∷ acc))

module _ (prims : Primitives) where
  length-wrap_loop :
      (rng : ℕ → Draw) (hops : List OnionHop) (i : ℕ) (next : SocketAddr) (payload wire : List ℕ)
      → IsSound prims
      → ((j : ℕ) → length (rng j).nonce ≡ 24)
      → wrap_loop prims rng hops i next payload ≡ ok wire
      → length wire ≡ length payload + (outer_header_len + layer_overhead) * length hops
  unfolding wrap_loop
  length-wrap_loop rng [] i next payload wire sound n h =
      (let e = ap length (ok-inj h) in omega (arith, e))
  length-wrap_loop rng (hop ∷ hops) i next payload wire sound n h =
      let s = wrap_loop_step prims rng hop hops i next payload wire h in
      let l0 = length-wrap_layer prims (rng i) hop.pk next payload s.0 sound (n i) s.2 in
      let l1 = (encode_datagram_bounds onion s.0 s.1 s.3).0 in
      let ih = length-wrap_loop rng hops (suc i) hop.addr s.1 wire sound n s.4 in
      omega (arith, l0, l1, ih)

  -- The loop succeeds when all addresses are IPv4 and the result fits a datagram.
  wrap_loop-total :
      (rng : ℕ → Draw) (hops : List OnionHop) (i : ℕ) (next : SocketAddr) (payload : List ℕ)
      → IsSound prims
      → ((j : ℕ) → length (rng j).nonce ≡ 24)
      → IsV4 next
      → All (λ h. IsV4 h.addr) hops
      → length payload + (outer_header_len + layer_overhead) * length hops ≤ max_datagram
      → (wire : List ℕ) × (wrap_loop prims rng hops i next payload ≡ ok wire)
  unfolding wrap_loop
  wrap_loop-total rng [] i next payload sound n v vs fits = (payload, refl)
  wrap_loop-total rng (hop ∷ hops) i (v6 octets port) payload sound n v vs fits = absurd v
  wrap_loop-total rng (hop ∷ hops) i (v4 a b c d port) payload sound n v vs fits =
      let w =
        wrap_layer-total prims (rng i) hop.pk a b c d port payload sound (omega (arith, fits)) in
      let l0 =
        length-wrap_layer prims (rng i) hop.pk (v4 a b c d port) payload w.0 sound (n i) w.1 in
      let e = encode_datagram-fits onion w.0 (omega (arith, l0, fits)) in
      let l1 = (encode_datagram_bounds onion w.0 _ e).0 in
      let ih =
        wrap_loop-total rng hops (suc i) hop.addr _ sound n vs.0 vs.1
          (omega (arith, l0, l1, fits)) in
      (
        ih.0,
        ap
              (λ r. r >>= λ body. encode_datagram onion body >>= λ wrapped.
                wrap_loop prims rng hops (suc i) hop.addr wrapped)
              w.1
            ∙ ap (λ r. r >>= λ wrapped. wrap_loop prims rng hops (suc i) hop.addr wrapped) e
            ∙ ih.1,
      )

  -- With sound primitives and nonces of 24 bytes: a wrapped route is longer than what it carries
  -- by 86 bytes for each hop.
  pub length-wrap_route :
      (rng : ℕ → Draw) (hops : List OnionHop) (dest : SocketAddr) (inner wire : List ℕ)
      → IsSound prims
      → ((j : ℕ) → length (rng j).nonce ≡ 24)
      → wrap_route prims rng hops dest inner ≡ ok wire
      → length wire ≡ length inner + 86 * length hops
  unfolding wrap_route
  length-wrap_route rng [] dest inner wire sound n h = absurd (cc h)
  length-wrap_route rng (hop ∷ hops) dest inner wire sound n h =
      let l = length-wrap_loop rng (reverse_onto (hop ∷ hops) []) 0 dest inner wire sound n h in
      let r = length-reverse_onto (hop ∷ hops) [] in omega (arith, l, r)

  -- With sound primitives and nonces of 24 bytes: a route of at least one hop is wrapped, when
  -- the destination and all hops have IPv4 addresses, as soon as the result fits a datagram.
  pub wrap_route-total :
      (rng : ℕ → Draw) (hop : OnionHop) (hops : List OnionHop) (dest : SocketAddr) (inner : List ℕ)
      → IsSound prims
      → ((j : ℕ) → length (rng j).nonce ≡ 24)
      → IsV4 dest
      → All (λ h. IsV4 h.addr) (hop ∷ hops)
      → length inner + 86 * length (hop ∷ hops) ≤ max_datagram
      → (wire : List ℕ) × (wrap_route prims rng (hop ∷ hops) dest inner ≡ ok wire)
  unfolding wrap_route
  wrap_route-total rng hop hops dest inner sound n v vs fits =
      let r = length-reverse_onto (hop ∷ hops) [] in
      wrap_loop-total rng (reverse_onto (hop ∷ hops) []) 0 dest inner sound n v
        (All-reverse_onto (λ h. IsV4 h.addr) (hop ∷ hops) [] vs tt) (omega (arith, r, fits))
