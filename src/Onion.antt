-- ===== src/Onion.antt =====
-- onion.rs: nested layers. A layer's ephemeral secret and nonce are drawn from a stream that is a
-- parameter, in the order in which the code draws them.
pub mod Layer
pub mod Route
pub mod Size
pub mod Hop
pub mod Delivery
use ppo_se_protocol.Common.{
  ℕ, suc, ◌+◌, Bool, true, false, List, [], ◌∷◌, ◌++◌, Result, ok, err, ◌>>=◌, map_err, ltb,
  if◌then◌else◌, length, get_or, take, drop, slice,
}
use ppo_se_protocol.Common.Bytes.{to_be_bytes, from_be_bytes}
use ppo_se_protocol.Wire.{
  max_datagram, SocketAddr, v4, v6, recv_failed, Received, timed_out, failed, datagram, NodeStep,
  quiet, sends,
}
use ppo_se_protocol.Packet.{
  PacketType, onion, PacketError, truncated, bad_type, too_large, bad_address, encode_datagram,
  decode_outer, same_type,
}
use ppo_se_protocol.Crypto.{Primitives, seal, open_sealed, shared_with}
use ppo_se_protocol.Replay.{ReplayCache, accept}

abbrev pub layer_overhead : ℕ
layer_overhead = 32 + 24 + 16 + 4 + 2

-- The bytes of "ppose-pnd-v1".
abbrev pub pnd_kdf_label : List ℕ
pnd_kdf_label = 112 ∷ 112 ∷ 111 ∷ 115 ∷ 101 ∷ 45 ∷ 112 ∷ 110 ∷ 100 ∷ 45 ∷ 118 ∷ 49 ∷ []

pub record OnionHop : Type 0 where
  pub addr : SocketAddr
  pub pk : List ℕ

-- One draw from the random generator for a layer.
pub record Draw : Type 0 where
  pub eph : List ℕ
  pub nonce : List ℕ

pub record Peeled : Type 0 where
  pub next : SocketAddr
  pub payload : List ℕ

-- The loop of `wrap_route` goes over the hops in reverse.
unfoldable pub reverse_onto {ℓ} : {A : Type ℓ} → List A → List A → List A
reverse_onto [] acc = acc
reverse_onto (x ∷ xs) acc = reverse_onto xs (x ∷ acc)

-- The end of `peel_layer`. The indices are in range behind the test of the length.
unfoldable pub parse_layer : List ℕ → Result PacketError Peeled
parse_layer plain =
    if ltb (length plain) 6
    then err truncated
    else ok record {
      next =
          v4 (get_or plain 0 0) (get_or plain 1 0) (get_or plain 2 0) (get_or plain 3 0)
            (from_be_bytes (slice plain 4 6));
      payload = drop 6 plain;
    }

module _ (prims : Primitives) where
  unfoldable pub derive_hop_key : List ℕ → List ℕ
  derive_hop_key shared = prims.blake3 (pnd_kdf_label ++ shared)

  unfoldable pub wrap_layer : Draw → List ℕ → SocketAddr → List ℕ → Result PacketError (List ℕ)
  unfolding derive_hop_key seal
  wrap_layer draw hop_pk (v6 octets port) payload = err bad_address
  wrap_layer draw hop_pk (v4 a b c d port) payload =
      let eph_pub : List ℕ = prims.public_key draw.eph in
      let key : List ℕ = derive_hop_key (prims.diffie_hellman draw.eph hop_pk) in
      let plain : List ℕ = (a ∷ b ∷ c ∷ d ∷ []) ++ (to_be_bytes 2 port ++ payload) in
      do
        ct ← map_err (λ _. too_large) (seal prims key draw.nonce eph_pub plain)
        ok (eph_pub ++ (draw.nonce ++ ct))

  -- `peel_layer` once the body is cut into the ephemeral key, the nonce and the ciphertext.
  unfoldable pub peel_parts : List ℕ → List ℕ → List ℕ → List ℕ → Result PacketError Peeled
  unfolding derive_hop_key open_sealed parse_layer
  peel_parts local eph nonce ct =
      let key : List ℕ = derive_hop_key (shared_with prims local eph) in
      do plain ← map_err (λ _. bad_type) (open_sealed prims key nonce eph ct); parse_layer plain

  unfoldable pub peel_layer : List ℕ → List ℕ → Result PacketError Peeled
  unfolding peel_parts
  peel_layer local body =
      if ltb (length body) layer_overhead
      then err truncated
      else peel_parts local (take 32 body) (slice body 32 56) (drop 56 body)

  -- The loop of `wrap_route`, from the draw with number `i`.
  unfoldable pub wrap_loop :
      (ℕ → Draw) → List OnionHop → ℕ → SocketAddr → List ℕ → Result PacketError (List ℕ)
  unfolding wrap_layer encode_datagram
  wrap_loop rng [] i next payload = ok payload
  wrap_loop rng (hop ∷ hops) i next payload = do
    body ← wrap_layer (rng i) hop.pk next payload
    wrapped ← encode_datagram onion body
    wrap_loop rng hops (suc i) hop.addr wrapped

  unfoldable pub wrap_route :
      (ℕ → Draw) → List OnionHop → SocketAddr → List ℕ → Result PacketError (List ℕ)
  unfolding wrap_loop reverse_onto
  wrap_route rng [] dest inner = err bad_type
  wrap_route rng (hop ∷ hops) dest inner = wrap_loop rng (reverse_onto (hop ∷ hops) []) 0 dest inner

pub record OnionRelay : Type 0 where
  pub local : List ℕ
  pub replay : ReplayCache

-- The end of `step`, after `replay.accept`.
unfoldable pub send_peeled : ReplayCache × Bool → Peeled → Bool → OnionRelay → NodeStep OnionRelay
send_peeled (c, false) peeled delivered r = quiet record r { replay = c }
send_peeled (c, true) peeled delivered r =
    if ltb max_datagram (length peeled.payload)
    then quiet record r { replay = c }
    else sends record r { replay = c } delivered peeled.payload peeled.next

module _ (prims : Primitives) where
  -- After `peel_layer`.
  unfoldable pub forward_peeled :
      Result PacketError Peeled → ℕ → Bool → OnionRelay → NodeStep OnionRelay
  unfolding send_peeled accept
  forward_peeled (err e) now delivered r = quiet r
  forward_peeled (ok peeled) now delivered r =
      send_peeled (accept prims.blake3 peeled.payload now r.replay) peeled delivered r

  -- After `decode_outer`.
  unfoldable pub peel_packet :
      Result PacketError (PacketType × ℕ × List ℕ) → ℕ → Bool → OnionRelay → NodeStep OnionRelay
  unfolding forward_peeled peel_layer same_type
  peel_packet (err e) now delivered r = quiet r
  peel_packet (ok (ty, flags, body)) now delivered r =
      if same_type ty onion
      then forward_peeled (peel_layer prims r.local body) now delivered r
      else quiet r

  unfoldable pub step : Received → ℕ → Bool → OnionRelay → NodeStep OnionRelay
  unfolding peel_packet decode_outer
  step timed_out now delivered r = quiet r
  step failed now delivered r = record { state = r; sent = []; result = err recv_failed }
  step (datagram bytes from) now delivered r =
      peel_packet (decode_outer (take max_datagram bytes)) now delivered r
