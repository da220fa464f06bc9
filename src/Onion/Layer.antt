-- ===== src/Onion/Layer.antt =====
-- One layer of the onion: what a hop peels is what was wrapped for it.
use ppo_se_protocol.Common.{
  ℕ, ◌+◌, ◌≤◌, ◌<◌, ◌^◌, ◌≡◌, refl, sym, ap, ◌∙◌, Option, none, some, List, [], ◌∷◌, ◌++◌, Result,
  ok, err, ◌>>=◌, map_err, length, take, drop, slice, take-append, drop-append, length-append,
  arith, if◌then◌else◌, false, append_assoc, le→ltb, ltb,
}
use ppo_se_protocol.Common.Bytes.{to_be_bytes, from_be_bytes-u16}
use ppo_se_protocol.Wire.{SocketAddr, v4, v6, IsAddr}
use ppo_se_protocol.Packet.{PacketError, truncated, bad_type, too_large}
use ppo_se_protocol.Crypto.{
  Primitives, IsSound, AeadError, encrypt_failed, decrypt_failed, seal, open_sealed, shared_with,
}
use ppo_se_protocol.Onion.{
  Draw, layer_overhead, parse_layer, derive_hop_key, wrap_layer, peel_parts, peel_layer,
}

abbrev plain_of : SocketAddr → List ℕ → List ℕ
plain_of (v4 a b c d port) payload = (a ∷ b ∷ c ∷ d ∷ []) ++ (to_be_bytes 2 port ++ payload)
plain_of (v6 octets port) payload = []

parse_layer-plain_of :
    (a b c d port : ℕ) (payload : List ℕ)
    → port < 2 ^ 16
    → parse_layer (plain_of (v4 a b c d port) payload)
      ≡ ok record { next = v4 a b c d port; payload = payload }
unfolding parse_layer
parse_layer-plain_of a b c d port payload h = ground (arith, from_be_bytes-u16 port)

abbrev assemble : List ℕ → List ℕ → Option (List ℕ) → Result PacketError (List ℕ)
assemble eph nonce o =
    map_err {E = AeadError} (λ _. too_large)
      (elim o [ none ↦ err encrypt_failed | some ct ↦ ok ct ])
    >>= λ ct. ok (eph ++ (nonce ++ ct))

assemble_ok :
    (eph nonce : List ℕ) (o : Option (List ℕ)) (body : List ℕ)
    → assemble eph nonce o ≡ ok body
    → (ct : List ℕ) × (o ≡ some ct) × (body ≡ eph ++ (nonce ++ ct))
assemble_ok eph nonce none body h = absurd (cc h)
assemble_ok eph nonce (some ct) body h = (ct, refl, cc h)

module _ (prims : Primitives) where
  abbrev layer_key : Draw → List ℕ → List ℕ
  layer_key draw hop_pk = derive_hop_key prims (prims.diffie_hellman draw.eph hop_pk)

  -- A layer is the ephemeral key, the nonce and the ciphertext.
  pub wrap_layer_ok :
      (draw : Draw) (hop_pk : List ℕ) (next : SocketAddr) (payload body : List ℕ)
      → wrap_layer prims draw hop_pk next payload ≡ ok body
      → (ct : List ℕ) × (prims.encrypt
            (layer_key draw hop_pk)
            draw.nonce
            (prims.public_key draw.eph)
            (plain_of next payload)
          ≡ some ct)
        × (body ≡ prims.public_key draw.eph ++ (draw.nonce ++ ct))
  unfolding wrap_layer seal
  wrap_layer_ok draw hop_pk (v6 octets port) payload body h = absurd (cc h)
  wrap_layer_ok draw hop_pk (v4 a b c d port) payload body h =
      assemble_ok (prims.public_key draw.eph) draw.nonce
        (prims.encrypt (layer_key draw hop_pk) draw.nonce (prims.public_key draw.eph)
          (plain_of (v4 a b c d port) payload))
        body h

  -- The layer is built for an IPv4 address and a payload that the cipher takes.
  pub wrap_layer-total :
      (draw : Draw) (hop_pk : List ℕ) (a b c d port : ℕ) (payload : List ℕ)
      → IsSound prims
      → length payload ≤ 2 ^ 31
      → (body : List ℕ) × (wrap_layer prims draw hop_pk (v4 a b c d port) payload ≡ ok body)
  unfolding wrap_layer seal
  wrap_layer-total draw hop_pk a b c d port payload sound h =
      let enc =
        sound.encrypts (layer_key draw hop_pk) draw.nonce (prims.public_key draw.eph)
          (plain_of (v4 a b c d port) payload) (omega (arith, h)) in
      (
        prims.public_key draw.eph ++ (draw.nonce ++ enc.0),
        ap (assemble (prims.public_key draw.eph) draw.nonce) enc.1,
      )

  -- A layer is longer than its payload by the constant `LAYER_OVERHEAD`.
  pub length-wrap_layer :
      (draw : Draw) (hop_pk : List ℕ) (next : SocketAddr) (payload body : List ℕ)
      → IsSound prims
      → length draw.nonce ≡ 24
      → wrap_layer prims draw hop_pk next payload ≡ ok body
      → length body ≡ layer_overhead + length payload
  unfolding wrap_layer
  length-wrap_layer draw hop_pk (v6 octets port) payload body sound n h = absurd (cc h)
  length-wrap_layer draw hop_pk (v4 a b c d port) payload body sound n h =
      let w = wrap_layer_ok draw hop_pk (v4 a b c d port) payload body h in
      let l0 = length-append (prims.public_key draw.eph) (draw.nonce ++ w.0) in
      let l1 = length-append draw.nonce w.0 in
      let l2 =
        sound.length_encrypt (layer_key draw hop_pk) draw.nonce (prims.public_key draw.eph)
          (plain_of (v4 a b c d port) payload) w.0 w.1 in
      let l3 = sound.length_public_key draw.eph in
      let l4 = ap length w.2 in omega (arith, l0, l1, l2, l3, l4, n)

  -- `peel_layer` on the three parts of a layer.
  peel_layer-parts :
      (local eph nonce ct : List ℕ)
      → length eph ≡ 32
      → length nonce ≡ 24
      → 22 ≤ length ct
      → peel_layer prims local (eph ++ (nonce ++ ct)) ≡ peel_parts prims local eph nonce ct
  unfolding peel_layer
  peel_layer-parts local eph nonce ct he hn hc =
      let body : List ℕ = eph ++ (nonce ++ ct) in
      let l0 = length-append eph (nonce ++ ct) in
      let l1 = length-append nonce ct in
      let l2 = length-append eph nonce in
      let long : ltb (length body) layer_overhead ≡ false =
        le→ltb (length body) layer_overhead (omega (arith, l0, l1, he, hn, hc)) in
      let first : take 32 body ≡ eph = take-append 32 eph (nonce ++ ct) he in
      let second : slice body 32 56 ≡ nonce =
        ap (take 24) (drop-append 32 eph (nonce ++ ct) he) ∙ take-append 24 nonce ct hn in
      let third : drop 56 body ≡ ct =
        ap (drop 56) (sym (append_assoc eph nonce ct))
        ∙ drop-append 56 (eph ++ nonce) ct (omega (arith, l2, he, hn)) in
      ap
        (λ b.
          if b
          then err truncated
          else peel_parts prims local (take 32 body) (slice body 32 56) (drop 56 body))
        long
      ∙ ap (λ x. peel_parts prims local x (slice body 32 56) (drop 56 body)) first
      ∙ ap (λ x. peel_parts prims local eph x (drop 56 body)) second
      ∙ ap (λ x. peel_parts prims local eph nonce x) third

  peel_parts_ok :
      (local eph nonce ct plain : List ℕ)
      → prims.decrypt (derive_hop_key prims (shared_with prims local eph)) nonce eph ct ≡ some plain
      → peel_parts prims local eph nonce ct ≡ parse_layer plain
  unfolding peel_parts open_sealed
  peel_parts_ok local eph nonce ct plain h =
      ap
        (λ o.
          map_err {E = AeadError} (λ _. bad_type)
            (elim o [ none ↦ err decrypt_failed | some p ↦ ok p ])
          >>= parse_layer)
        h

  -- With sound primitives, nonces of 24 bytes and addresses whose fields are in range: the hop
  -- with the secret key peels the next address and the payload that were wrapped for its public
  -- key.
  pub peel_layer-wrap_layer :
      (draw : Draw) (secret : List ℕ) (next : SocketAddr) (payload body : List ℕ)
      → IsSound prims
      → length draw.nonce ≡ 24
      → IsAddr next
      → wrap_layer prims draw (prims.public_key secret) next payload ≡ ok body
      → peel_layer prims secret body ≡ ok record { next = next; payload = payload }
  unfolding wrap_layer
  peel_layer-wrap_layer draw secret (v6 octets port) payload body sound n a h = absurd (cc h)
  peel_layer-wrap_layer draw secret (v4 a b c d port) payload body sound n addr h =
      let next : SocketAddr = v4 a b c d port in
      let eph_pub : List ℕ = prims.public_key draw.eph in
      let key : List ℕ = layer_key draw (prims.public_key secret) in
      let w = wrap_layer_ok draw (prims.public_key secret) next payload body h in
      let size = sound.length_encrypt key draw.nonce eph_pub (plain_of next payload) w.0 w.1 in
      let opened = sound.decrypts key draw.nonce eph_pub (plain_of next payload) w.0 w.1 in
      ap (peel_layer prims secret) w.2
      ∙ peel_layer-parts secret eph_pub draw.nonce w.0 (sound.length_public_key draw.eph) n
          (omega (arith, size))
      ∙ peel_parts_ok secret eph_pub draw.nonce w.0 (plain_of next payload) (
          ap (λ k. prims.decrypt (derive_hop_key prims k) draw.nonce eph_pub w.0)
            (sound.agrees secret draw.eph)
          ∙ opened)
      ∙ parse_layer-plain_of a b c d port payload addr.4
