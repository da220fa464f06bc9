-- ===== src/Rendezvous/Laws.antt =====
-- What a lookup answers, and when a registration is found.
use ppo_se_protocol.Common.{
  ℕ, ◌-◌, ◌≤◌, ◌≡◌, ◌≢◌, refl, sym, ap, subst, ◌∙◌, Bool, true, false, Option, none, some, List, [],
  ◌∷◌, ◌++◌, ok, ltb, if◌then◌else◌, length, slice, take_all, length-append, arith,
}
use ppo_se_protocol.Common.Bytes.{from_be_bytes-u16}
use ppo_se_protocol.Common.Table.{get, insert, get-insert_self, get-insert_ne, bytes_discrete}
use ppo_se_protocol.Common.Distinct.{IsDistinct, insert-IsDistinct}
use ppo_se_protocol.Wire.{max_datagram, SocketAddr, v4, v6, IsAddr, datagram, quiet, sends}
use ppo_se_protocol.Packet.{rendezvous, encode_outer, encode_datagram, decode_outer}
use ppo_se_protocol.Packet.Codec.{
  decode_outer-encode_outer, encode_datagram-fits, length-encode_outer,
}
use ppo_se_protocol.Rendezvous.{
  RendezvousService, op_register, op_lookup, retain_live, expire, register, reply_of, send_reply,
  lookup, dispatch, serve, step, expect, encode_register, encode_lookup, parse_reply, decode_reply,
}

-- An entry survives `expire` exactly while its time is within the TTL.
abbrev pub still_live : ℕ → ℕ → Option (SocketAddr × ℕ) → Option (SocketAddr × ℕ)
still_live now ttl none = none
still_live now ttl (some (a, t)) = if ltb (now - t) ttl then some (a, t) else none

get-retain_none :
    (now ttl : ℕ) (k : List ℕ) (m : List (List ℕ × (SocketAddr × ℕ)))
    → get bytes_discrete k m ≡ none
    → get bytes_discrete k (retain_live now ttl m) ≡ none
unfolding get retain_live
get-retain_none now ttl k [] h = refl
get-retain_none now ttl k ((j, (a, t)) ∷ m) h = ground (arith, get-retain_none now ttl k m)

pub get-retain_live :
    (now ttl : ℕ) (k : List ℕ) (m : List (List ℕ × (SocketAddr × ℕ)))
    → IsDistinct bytes_discrete m
    → get bytes_discrete k (retain_live now ttl m) ≡ still_live now ttl (get bytes_discrete k m)
unfolding get retain_live
get-retain_live now ttl k [] h = refl
get-retain_live now ttl k ((j, (a, t)) ∷ m) h = ground (
  arith,
  get-retain_live now ttl k m h.1,
  get-retain_none now ttl k m,
  ap (λ x. get bytes_discrete x m) {x = j} {y = k},
)

pub retain_live-IsDistinct :
    (now ttl : ℕ) (m : List (List ℕ × (SocketAddr × ℕ)))
    → IsDistinct bytes_discrete m
    → IsDistinct bytes_discrete (retain_live now ttl m)
unfolding retain_live
retain_live-IsDistinct now ttl [] h = tt
retain_live-IsDistinct now ttl ((j, (a, t)) ∷ m) h =
    ground (arith, retain_live-IsDistinct now ttl m h.1, get-retain_none now ttl j m)

-- The address that a client may read: an IPv4 one.
abbrev pub readable : Option (SocketAddr × ℕ) → Option SocketAddr
readable none = none
readable (some (v6 octets port, t)) = none
readable (some (v4 a b c d port, t)) = some (v4 a b c d port)

abbrev pub IsEntry : Option (SocketAddr × ℕ) → Type 0
IsEntry none = Unit
IsEntry (some (a, t)) = IsAddr a

parse_reply-reply_of :
    (o : Option (SocketAddr × ℕ))
    → IsEntry o
    → parse_reply (ok (rendezvous, 0, reply_of o)) ≡ readable o
unfolding parse_reply
parse_reply-reply_of none h = refl
parse_reply-reply_of (some (v6 octets port, t)) h = refl
parse_reply-reply_of (some (v4 a b c d port, t)) h = ground (arith, from_be_bytes-u16 port h.4)

-- A request of the right length reaches its handler.
step-request :
    (op : ℕ) (token : List ℕ) (from : SocketAddr) (now stamped : ℕ) (delivered : Bool)
    (s : RendezvousService)
    → length token ≡ 32
    → step (datagram (encode_outer rendezvous 0 ++ (op ∷ token)) from) now stamped delivered s
      ≡ dispatch (op ∷ token) from stamped delivered (expire now s)
unfolding step serve
step-request op token from now stamped delivered s h =
    let size = length-append (encode_outer rendezvous 0) (op ∷ token) in
    let head = length-encode_outer rendezvous 0 in
    ap (λ b. serve (decode_outer b) from now stamped delivered s)
      (take_all max_datagram (encode_outer rendezvous 0 ++ (op ∷ token))
        (omega (arith, size, head, h)))
    ∙ ap (λ o. serve o from now stamped delivered s)
        (decode_outer-encode_outer rendezvous 0 (op ∷ token))
    ∙ ap (λ b. if b then quiet s else dispatch (op ∷ token) from stamped delivered (expire now s))
        {y = false} (ground (arith, h))

slice_token : (op : ℕ) (token : List ℕ) → length token ≡ 32 → slice (op ∷ token) 1 33 ≡ token
slice_token op token h = take_all 32 token (omega (arith, h))

-- The entry that a lookup finds is IPv4 or is not answered; the reply fits a datagram.
length-reply_of : (o : Option (SocketAddr × ℕ)) → length (reply_of o) ≤ 8
length-reply_of none = omega arith
length-reply_of (some (v6 octets port, t)) = omega arith
length-reply_of (some (v4 a b c d port, t)) = omega arith

still_live-IsEntry :
    (now ttl : ℕ) (o : Option (SocketAddr × ℕ)) → IsEntry o → IsEntry (still_live now ttl o)
still_live-IsEntry now ttl none h = tt
still_live-IsEntry now ttl (some (a, t)) h =
    elim (ltb (now - t) ttl) as (λ b. IsEntry (if b then some (a, t) else none)) [
      | true ↦ h
      | false ↦ tt
    ]

-- For a 32-byte token and a map without a repeated one: `encode_register` builds its packet, and
-- a step on it records the sender under the token, with nothing sent, and changes no other entry
-- but by expiry.
pub step-register :
    (token : List ℕ) (from : SocketAddr) (now stamped : ℕ) (delivered : Bool)
    (s : RendezvousService)
    → length token ≡ 32
    → IsDistinct bytes_discrete s.map
    → (pkt : List ℕ) × (after : RendezvousService) × (encode_register token ≡ some pkt)
      × (step (datagram pkt from) now stamped delivered s
          ≡ record { state = after; sent = []; result = ok true })
      × (get bytes_discrete token after.map ≡ some (from, stamped))
      × ((other : List ℕ)
          → token ≢ other
          → get bytes_discrete other after.map
            ≡ still_live now s.ttl (get bytes_discrete other s.map))
      × IsDistinct bytes_discrete after.map
      × (after.ttl ≡ s.ttl)
unfolding encode_register dispatch register expire
step-register token from now stamped delivered s h d =
    let live : List (List ℕ × (SocketAddr × ℕ)) = retain_live now s.ttl s.map in
    let after : RendezvousService = record s {
      map = insert bytes_discrete token (from, stamped) live;
    } in
    (
      encode_outer rendezvous 0 ++ (op_register ∷ token),
      after,
      ap expect (encode_datagram-fits rendezvous (op_register ∷ token) (omega (arith, h))),
      step-request op_register token from now stamped delivered s h
          ∙ ap
              (λ b. if b then quiet (expire now s) else record {
                state = record s {
                  map =
                      insert bytes_discrete (slice (op_register ∷ token) 1 33) (from, stamped) live;
                };
                sent = [];
                result = ok true;
              })
              {y = false} (ground (arith, h))
          ∙ ap
              (λ k. record {
                state = record s { map = insert bytes_discrete k (from, stamped) live };
                sent = [];
                result = ok true;
              })
              (slice_token op_register token h),
      get-insert_self bytes_discrete token (from, stamped) live,
      (λ other ne.
          get-insert_ne bytes_discrete token other (from, stamped) live ne
          ∙ get-retain_live now s.ttl other s.map d),
      insert-IsDistinct bytes_discrete token (from, stamped) live
          (retain_live-IsDistinct now s.ttl s.map d),
      refl,
    )

-- For a 32-byte token and a map without a repeated one, where the token's address has its fields
-- in range: `encode_lookup` builds its packet, and a step on it answers the sender with one
-- reply: the IPv4 address recorded under the token if it is still live, else a reply that decodes
-- to none.
pub step-lookup :
    (token : List ℕ) (from : SocketAddr) (now stamped : ℕ) (delivered : Bool)
    (s : RendezvousService)
    → length token ≡ 32
    → IsDistinct bytes_discrete s.map
    → IsEntry (get bytes_discrete token s.map)
    → (pkt : List ℕ) × (reply : List ℕ) × (encode_lookup token ≡ some pkt)
      × (step (datagram pkt from) now stamped delivered s
          ≡ sends (expire now s) delivered reply from)
      × (decode_reply reply ≡ readable (still_live now s.ttl (get bytes_discrete token s.map)))
unfolding encode_lookup dispatch lookup send_reply decode_reply expire
step-lookup token from now stamped delivered s h d e =
    let live : List (List ℕ × (SocketAddr × ℕ)) = retain_live now s.ttl s.map in
    let found : Option (SocketAddr × ℕ) = still_live now s.ttl (get bytes_discrete token s.map) in
    let reply : List ℕ = encode_outer rendezvous 0 ++ reply_of found in
    let seen : get bytes_discrete (slice (op_lookup ∷ token) 1 33) live ≡ found =
      ap (λ k. get bytes_discrete k live) (slice_token op_lookup token h)
      ∙ get-retain_live now s.ttl token s.map d in
    let small = length-reply_of found in
    let fits : encode_datagram rendezvous (reply_of found) ≡ ok reply =
      encode_datagram-fits rendezvous (reply_of found) (omega (arith, small)) in
    (
      encode_outer rendezvous 0 ++ (op_lookup ∷ token),
      reply,
      ap expect (encode_datagram-fits rendezvous (op_lookup ∷ token) (omega (arith, h))),
      step-request op_lookup token from now stamped delivered s h
          ∙ ap
              (λ b.
                if b
                then quiet (expire now s)
                else send_reply
                    (encode_datagram rendezvous
                      (reply_of (get bytes_discrete (slice (op_lookup ∷ token) 1 33) live)))
                    from delivered (expire now s))
              {y = false} (ground (arith, h))
          ∙ ap
              (λ o.
                send_reply (encode_datagram rendezvous (reply_of o)) from delivered (expire now s))
              seen
          ∙ ap (λ r. send_reply r from delivered (expire now s)) fits,
      ap parse_reply (decode_outer-encode_outer rendezvous 0 (reply_of found))
          ∙ parse_reply-reply_of found
              (still_live-IsEntry now s.ttl (get bytes_discrete token s.map) e),
    )

some-inj : {x y : List ℕ} → some x ≡ some y → x ≡ y
some-inj h = cc h

readable-if :
    (b : Bool) (a c d e port t : ℕ)
    → readable (if b then some (v4 a c d e port, t) else none)
      ≡ (if b then some (v4 a c d e port) else none)
readable-if true a c d e port t = refl
readable-if false a c d e port t = refl

-- On a map without a repeated token, a 32-byte token is registered from an IPv4 address, and the
-- next step is a lookup of it, by anyone. The lookup is answered by one reply to them: the
-- registrar's address while the registration is younger than the TTL, and then none.
pub register-lookup :
    (token : List ℕ) (a b c d port : ℕ) (client : SocketAddr) (now stamped now' stamped' : ℕ)
    (delivered delivered' : Bool) (s : RendezvousService) (pkt query : List ℕ)
    → length token ≡ 32
    → IsAddr (v4 a b c d port)
    → IsDistinct bytes_discrete s.map
    → encode_register token ≡ some pkt
    → encode_lookup token ≡ some query
    → (reply : List ℕ) × ((step
          (datagram query client)
          now'
          stamped'
          delivered'
          (step (datagram pkt (v4 a b c d port)) now stamped delivered s).state).sent
        ≡ (reply, client) ∷ [])
      × (decode_reply reply ≡ (if ltb (now' - stamped) s.ttl then some (v4 a b c d port) else none))
register-lookup token a b c d port client now stamped now' stamped' delivered delivered' s pkt query
      h v dist eq eq' =
    let from : SocketAddr = v4 a b c d port in
    let r = step-register token from now stamped delivered s h dist in
    let after : RendezvousService = r.1 in
    let l =
      step-lookup token client now' stamped' delivered' after h r.6 (subst IsEntry (sym r.4) v) in
    let same : r.0 ≡ pkt = some-inj (sym r.2 ∙ eq) in
    let same' : l.0 ≡ query = some-inj (sym l.2 ∙ eq') in
    let state : (step (datagram pkt from) now stamped delivered s).state ≡ after =
      ap (λ p. (step (datagram p from) now stamped delivered s).state) (sym same)
      ∙ ap (λ n. n.state) r.3 in
    (
      l.1,
      ap (λ st. (step (datagram query client) now' stamped' delivered' st).sent) state
          ∙ ap (λ q. (step (datagram q client) now' stamped' delivered' after).sent) (sym same')
          ∙ ap (λ n. n.sent) l.3,
      l.4
          ∙ ap (λ o. readable (still_live now' after.ttl o)) r.4
          ∙ ap (λ ttl. readable (still_live now' ttl (some (from, stamped)))) r.7
          ∙ readable-if (ltb (now' - stamped) s.ttl) a b c d port stamped,
    )
