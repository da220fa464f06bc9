-- ===== src/Onion/Route.antt =====
-- A whole route: sizes, success, and what each hop peels.
use ppo_se_protocol.Common.{
  ℕ, suc, ◌≡◌, refl, sym, ap, subst, ◌∙◌, Option, none, some, List, [], ◌∷◌, ◌++◌, map, Result, ok,
  err, bind-ok, ok-inj, length, All, if◌then◌else◌, append-nil,
}
use ppo_se_protocol.Wire.{SocketAddr, IsAddr}
use ppo_se_protocol.Packet.{
  PacketType, PacketError, onion, encode_datagram, decode_outer, same_type,
}
use ppo_se_protocol.Packet.Codec.{decode_outer-encode_datagram}
use ppo_se_protocol.Crypto.{Primitives, IsSound}
use ppo_se_protocol.Onion.{
  OnionHop, Draw, Peeled, reverse_onto, wrap_layer, wrap_loop, wrap_route, peel_layer,
}
use ppo_se_protocol.Onion.Layer.{peel_layer-wrap_layer}

-- A hop as its operator knows it: its address and its secret key.
pub record Keeper : Type 0 where
  pub addr : SocketAddr
  pub secret : List ℕ

abbrev pub peeled_of :
    Primitives → List ℕ → Result PacketError (PacketType × ℕ × List ℕ) → Option Peeled
peeled_of prims secret (err e) = none
peeled_of prims secret (ok (ty, flags, body)) =
    if same_type ty onion
    then elim (peel_layer prims secret body) [ err e ↦ none | ok p ↦ some p ]
    else none

-- What one hop makes of a datagram: the next address and what to send there.
unfoldable pub peel_wire : Primitives → List ℕ → List ℕ → Option Peeled
peel_wire prims secret wire = peeled_of prims secret (decode_outer wire)

-- Each hop of the list in turn peels what the one before sent: the addresses that they read, and
-- what comes out at the end.
unfoldable pub travel : Primitives → List (List ℕ) → List ℕ → Option (List SocketAddr × List ℕ)
unfolding peel_wire
travel prims [] wire = some ([], wire)
travel prims (secret ∷ secrets) wire = elim (peel_wire prims secret wire) [
  | none ↦ none
  | some p ↦ elim (travel prims secrets p.payload) [
    | none ↦ none
    | some (seen, inner) ↦ some (p.next ∷ seen, inner)
  ]
]

travel-cons :
    (prims : Primitives) (secret : List ℕ) (secrets : List (List ℕ)) (wire : List ℕ)
    (next : SocketAddr) (payload : List ℕ) (seen : List SocketAddr) (inner : List ℕ)
    → peel_wire prims secret wire ≡ some record { next = next; payload = payload }
    → travel prims secrets payload ≡ some (seen, inner)
    → travel prims (secret ∷ secrets) wire ≡ some (next ∷ seen, inner)
unfolding travel
travel-cons prims secret secrets wire next payload seen inner p t =
    ap
      (λ o. elim o [
        | none ↦ none
        | some p ↦ elim (travel prims secrets p.payload) [
          | none ↦ none
          | some (seen, inner) ↦ some (p.next ∷ seen, inner)
        ]
      ])
      p
    ∙ ap (λ o. elim o [ none ↦ none | some (seen, inner) ↦ some (next ∷ seen, inner) ]) t

abbrev pub hop_of : Primitives → Keeper → OnionHop
hop_of prims k = record { addr = k.addr; pk = prims.public_key k.secret }

pub map-reverse_onto {ℓ κ} :
    {A : Type ℓ} {B : Type κ} (f : A → B) (xs acc : List A)
    → map f (reverse_onto xs acc) ≡ reverse_onto (map f xs) (map f acc)
unfolding reverse_onto
map-reverse_onto f [] acc = refl
map-reverse_onto f (x ∷ xs) acc = map-reverse_onto f xs (x ∷ acc)

pub All-reverse_onto {ℓ κ} :
    {A : Type ℓ} (P : A → Type κ) (xs acc : List A)
    → All P xs
    → All P acc
    → All P (reverse_onto xs acc)
unfolding reverse_onto
All-reverse_onto P [] acc h g = g
All-reverse_onto P (x ∷ xs) acc h g = All-reverse_onto P xs (x ∷ acc) h.1 (h.0, g)

module _ (prims : Primitives) where
  -- One pass of the loop of `wrap_route` that succeeds.
  pub wrap_loop_step :
      (rng : ℕ → Draw) (hop : OnionHop) (hops : List OnionHop) (i : ℕ) (next : SocketAddr)
      (payload wire : List ℕ)
      → wrap_loop prims rng (hop ∷ hops) i next payload ≡ ok wire
      → (body : List ℕ) × (wrapped : List ℕ) × (wrap_layer prims (rng i) hop.pk next payload
          ≡ ok body)
        × (encode_datagram onion body ≡ ok wrapped)
        × (wrap_loop prims rng hops (suc i) hop.addr wrapped ≡ ok wire)
  unfolding wrap_loop
  wrap_loop_step rng hop hops i next payload wire h =
      let r = bind-ok (wrap_layer prims (rng i) hop.pk next payload) _ h in
      let q = bind-ok (encode_datagram onion r.0) _ r.2 in (r.0, q.0, r.1, q.1, q.2)

  -- A hop undoes the pass of the loop that wrapped for it.
  pub peel_wire-wrapped :
      (rng : ℕ → Draw) (secret : List ℕ) (i : ℕ) (next : SocketAddr) (payload body wrapped : List ℕ)
      → IsSound prims
      → length (rng i).nonce ≡ 24
      → IsAddr next
      → wrap_layer prims (rng i) (prims.public_key secret) next payload ≡ ok body
      → encode_datagram onion body ≡ ok wrapped
      → peel_wire prims secret wrapped ≡ some record { next = next; payload = payload }
  unfolding peel_wire same_type
  peel_wire-wrapped rng secret i next payload body wrapped sound n a h e =
      ap (λ o. peeled_of prims secret o) (decode_outer-encode_datagram onion body wrapped e)
      ∙ ap (λ o. elim o [ err e ↦ none | ok p ↦ some p ])
          (peel_layer-wrap_layer prims (rng i) secret next payload body sound n a h)

  -- The secrets of the hops wrapped so far, the last wrapped first; and the addresses they read.
  abbrev pub secrets_of : List Keeper → List (List ℕ) → List (List ℕ)
  secrets_of [] acc = acc
  secrets_of (k ∷ ks) acc = secrets_of ks (k.secret ∷ acc)

  abbrev pub seen_by : List Keeper → SocketAddr → List SocketAddr → List SocketAddr
  seen_by [] next acc = acc
  seen_by (k ∷ ks) next acc = seen_by ks k.addr (next ∷ acc)

  pub secrets_of-reverse_onto :
      (ks acc : List Keeper) (secrets : List (List ℕ))
      → secrets_of (reverse_onto ks acc) secrets
        ≡ secrets_of acc (map (λ k. k.secret) ks ++ secrets)
  unfolding reverse_onto
  secrets_of-reverse_onto [] acc secrets = refl
  secrets_of-reverse_onto (k ∷ ks) acc secrets = secrets_of-reverse_onto ks (k ∷ acc) secrets

  pub seen_by-reverse_onto :
      (k : Keeper) (ks acc : List Keeper) (next : SocketAddr) (seen : List SocketAddr)
      → seen_by (reverse_onto (k ∷ ks) acc) next seen
        ≡ seen_by acc k.addr (map (λ k. k.addr) ks ++ (next ∷ seen))
  unfolding reverse_onto
  seen_by-reverse_onto k [] acc next seen = refl
  seen_by-reverse_onto k (j ∷ ks) acc next seen = seen_by-reverse_onto j ks (k ∷ acc) next seen

  travel-wrap_loop :
      (rng : ℕ → Draw) (ks : List Keeper) (i : ℕ) (next : SocketAddr) (payload wire : List ℕ)
      (secrets : List (List ℕ)) (seen : List SocketAddr) (inner : List ℕ)
      → IsSound prims
      → ((j : ℕ) → length (rng j).nonce ≡ 24)
      → IsAddr next
      → All (λ k. IsAddr k.addr) ks
      → travel prims secrets payload ≡ some (seen, inner)
      → wrap_loop prims rng (map (hop_of prims) ks) i next payload ≡ ok wire
      → travel prims (secrets_of ks secrets) wire ≡ some (seen_by ks next seen, inner)
  unfolding wrap_loop
  travel-wrap_loop rng [] i next payload wire secrets seen inner sound n a addrs t h =
      subst (λ w. travel prims secrets w ≡ some (seen, inner)) (ok-inj h) t
  travel-wrap_loop rng (k ∷ ks) i next payload wire secrets seen inner sound n a addrs t h =
      let s = wrap_loop_step rng (hop_of prims k) (map (hop_of prims) ks) i next payload wire h in
      let p = peel_wire-wrapped rng k.secret i next payload s.0 s.1 sound (n i) a s.2 s.3 in
      travel-wrap_loop rng ks (suc i) k.addr s.1 wire (k.secret ∷ secrets) (next ∷ seen) inner sound
        n addrs.0 addrs.1 (travel-cons prims k.secret secrets s.1 next payload seen inner p t) s.4

  -- With sound primitives, nonces of 24 bytes and addresses whose fields are in range: a route
  -- that was wrapped peels hop by hop: each hop, in order, reads the address of the one after it,
  -- the last reads the destination, and the packet that comes out is the one put in.
  pub travel-wrap_route :
      (rng : ℕ → Draw) (k : Keeper) (ks : List Keeper) (dest : SocketAddr) (inner wire : List ℕ)
      → IsSound prims
      → ((j : ℕ) → length (rng j).nonce ≡ 24)
      → IsAddr dest
      → All (λ k. IsAddr k.addr) (k ∷ ks)
      → wrap_route prims rng (map (hop_of prims) (k ∷ ks)) dest inner ≡ ok wire
      → travel prims (map (λ k. k.secret) (k ∷ ks)) wire
        ≡ some (map (λ k. k.addr) ks ++ (dest ∷ []), inner)
  unfolding wrap_route travel
  travel-wrap_route rng k ks dest inner wire sound n a addrs h =
      let loop =
        travel-wrap_loop rng (reverse_onto (k ∷ ks) []) 0 dest inner wire [] [] inner sound n a
          (All-reverse_onto (λ k. IsAddr k.addr) (k ∷ ks) [] addrs tt) refl
          (ap (λ hs. wrap_loop prims rng hs 0 dest inner)
              (map-reverse_onto (hop_of prims) (k ∷ ks) [])
            ∙ h) in
      ap (λ ss. travel prims ss wire)
        (sym (secrets_of-reverse_onto (k ∷ ks) [] [] ∙ append-nil (map (λ k. k.secret) (k ∷ ks))))
      ∙ loop
      ∙ ap (λ seen. some (seen, inner)) (seen_by-reverse_onto k ks [] dest [])
