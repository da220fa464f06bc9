-- ===== src/Relay/Laws.antt =====
-- What a step of the relay sends, and to whom.
use ppo_se_protocol.Common.{
  ℕ, ◌+◌, ◌≤◌, ◌≡◌, refl, ap, subst, ◌∙◌, Bool, true, false, List, [], ◌∷◌, ◌++◌, Result, ◌⊎◌, inl,
  inr, ok, err, take, length, arith, take_all, length-append,
}
use ppo_se_protocol.Wire.{
  max_datagram, outer_header_len, SocketAddr, v4, IsAddr, Received, timed_out, failed, datagram,
  NodeStep, quiet, sends,
}
use ppo_se_protocol.Packet.{PacketType, PacketError, forward, encode_outer, decode_outer, same_type}
use ppo_se_protocol.Packet.Codec.{decode_outer-encode_outer, length-encode_outer}
use ppo_se_protocol.Forward.{encode_forward_body, decode_forward_body}
use ppo_se_protocol.Forward.Codec.{
  decode_forward_body-encode_forward_body, encode_forward_body_bounds,
}
use ppo_se_protocol.Replay.{ReplayCache, accept}
use ppo_se_protocol.Relay.{Relay, send_on, forward_new, forward_body, forward_packet, step}
use ppo_se_protocol.Common.Bytes.{to_be_bytes}

-- The source address fits the wrapper of any packet that a destination fits.
encode_forward_body-from :
    (a b c d port : ℕ) (dest : SocketAddr) (inner body : List ℕ)
    → encode_forward_body dest inner ≡ ok body
    → encode_forward_body (v4 a b c d port) inner
      ≡ ok ((a ∷ b ∷ c ∷ d ∷ []) ++ (to_be_bytes 2 port ++ inner))
unfolding encode_forward_body
encode_forward_body-from a b c d port dest inner body e =
    ground (arith, encode_forward_body_bounds dest inner body e)

module _ (hash : List ℕ → List ℕ) where
  -- The datagram that arrived, what it carries, and what the step sent for it.
  pub record Forwarded (x : Received) (now : ℕ) (r : Relay) (s : NodeStep Relay) : Type 0 where
    pub bytes : List ℕ
    pub from : SocketAddr
    pub dest : SocketAddr
    pub flags : ℕ
    pub body : List ℕ
    pub inner : List ℕ
    pub out_body : List ℕ
    pub arrived : x ≡ datagram bytes from
    pub header : decode_outer (take max_datagram bytes) ≡ ok (forward, flags, body)
    pub wrapped : decode_forward_body body ≡ ok (dest, inner)
    pub fresh : (accept hash inner now r.replay).1 ≡ true
    pub rewrapped : encode_forward_body from inner ≡ ok out_body
    pub sent : s.sent ≡ (encode_outer forward 0 ++ out_body, dest) ∷ []
    pub kept : s.state.replay ≡ (accept hash inner now r.replay).0

  -- A step on a datagram whose header says forward and whose body unwraps.
  pub step-forward :
      (from dest : SocketAddr) (flags : ℕ) (inner body : List ℕ) (now : ℕ) (delivered : Bool)
      (r : Relay)
      → outer_header_len + length body ≤ max_datagram
      → decode_forward_body body ≡ ok (dest, inner)
      → step hash (datagram (encode_outer forward flags ++ body) from) now delivered r
        ≡ forward_new (accept hash inner now r.replay) from dest inner delivered
  unfolding step forward_packet forward_body same_type
  step-forward from dest flags inner body now delivered r fits e =
      ap (λ b. forward_packet hash (decode_outer b) from now delivered r)
        (take_all max_datagram (encode_outer forward flags ++ body) (
          let h = length-append (encode_outer forward flags) body in
          let g = length-encode_outer forward flags in omega (arith, h, g, fits)))
      ∙ ap (λ o. forward_packet hash o from now delivered r)
          (decode_outer-encode_outer forward flags body)
      ∙ ap (λ o. forward_body hash o from now delivered r) e

  -- A forward wrapper for `dest`, from an IPv4 sender and with an inner packet that the cache
  -- accepts, makes the relay send one packet to `dest`: a forward packet of the same length whose
  -- body unwraps to the sender's address and the same inner packet. Both addresses have their
  -- fields in range.
  pub step-forwards :
      (a b c d port : ℕ) (dest : SocketAddr) (flags : ℕ) (inner body : List ℕ) (now : ℕ)
      (delivered : Bool) (r : Relay) (kept : ReplayCache)
      → IsAddr (v4 a b c d port)
      → IsAddr dest
      → encode_forward_body dest inner ≡ ok body
      → accept hash inner now r.replay ≡ (kept, true)
      → (pkt : List ℕ) × (out_body : List ℕ) × (step hash
            (datagram (encode_outer forward flags ++ body) (v4 a b c d port))
            now
            delivered
            r
          ≡ sends record { replay = kept } delivered pkt dest)
        × (decode_outer pkt ≡ ok (forward, 0, out_body))
        × (decode_forward_body out_body ≡ ok (v4 a b c d port, inner))
        × (length pkt ≡ outer_header_len + length body)
  unfolding forward_new send_on
  step-forwards a b c d port dest flags inner body now delivered r kept ha hd e k =
      let out_body : List ℕ = (a ∷ b ∷ c ∷ d ∷ []) ++ (to_be_bytes 2 port ++ inner) in
      let wrapped = encode_forward_body-from a b c d port dest inner body e in
      let size = encode_forward_body_bounds dest inner body e in
      let size' = encode_forward_body_bounds (v4 a b c d port) inner out_body wrapped in
      (
        encode_outer forward 0 ++ out_body,
        out_body,
        step-forward (v4 a b c d port) dest flags inner body now delivered r size.1
              (decode_forward_body-encode_forward_body dest inner body hd e)
            ∙ ap (λ q. forward_new q (v4 a b c d port) dest inner delivered) k
            ∙ ap (λ o. send_on o dest delivered record { replay = kept }) wrapped,
        decode_outer-encode_outer forward 0 out_body,
        decode_forward_body-encode_forward_body (v4 a b c d port) inner out_body ha wrapped,
        (let h = length-append (encode_outer forward 0) out_body in
            let g = length-encode_outer forward 0 in omega (arith, h, g, size.0, size'.0)),
      )

  sent_on :
      (o : Result PacketError (List ℕ)) (bytes : List ℕ) (from dest : SocketAddr) (flags : ℕ)
      (body inner : List ℕ) (now : ℕ) (delivered : Bool) (r : Relay)
      → decode_outer (take max_datagram bytes) ≡ ok (forward, flags, body)
      → decode_forward_body body ≡ ok (dest, inner)
      → (accept hash inner now r.replay).1 ≡ true
      → encode_forward_body from inner ≡ o
      → ((send_on o dest delivered record { replay = (accept hash inner now r.replay).0 }).sent
          ≡ [])
        ⊎ Forwarded
            (datagram bytes from)
            now
            r
            (send_on o dest delivered record { replay = (accept hash inner now r.replay).0 })
  unfolding send_on
  sent_on (err e) bytes from dest flags body inner now delivered r h w f q = inl refl
  sent_on (ok out_body) bytes from dest flags body inner now delivered r h w f q = inr record {
    bytes = bytes;
    from = from;
    dest = dest;
    flags = flags;
    body = body;
    inner = inner;
    out_body = out_body;
    arrived = refl;
    header = h;
    wrapped = w;
    fresh = f;
    rewrapped = q;
    sent = refl;
    kept = refl;
  }

  sent_new :
      (a : ReplayCache × Bool) (bytes : List ℕ) (from dest : SocketAddr) (flags : ℕ)
      (body inner : List ℕ) (now : ℕ) (delivered : Bool) (r : Relay)
      → decode_outer (take max_datagram bytes) ≡ ok (forward, flags, body)
      → decode_forward_body body ≡ ok (dest, inner)
      → accept hash inner now r.replay ≡ a
      → ((forward_new a from dest inner delivered).sent ≡ [])
        ⊎ Forwarded (datagram bytes from) now r (forward_new a from dest inner delivered)
  unfolding forward_new
  sent_new (c, false) bytes from dest flags body inner now delivered r h w q = inl refl
  sent_new (c, true) bytes from dest flags body inner now delivered r h w q =
      subst
        (λ k.
          ((send_on (encode_forward_body from inner) dest delivered record { replay = k }).sent
            ≡ [])
          ⊎ Forwarded (datagram bytes from) now r
              (send_on (encode_forward_body from inner) dest delivered record { replay = k }))
        (ap (λ p. p.0) q)
        (sent_on (encode_forward_body from inner) bytes from dest flags body inner now delivered r h
          w (ap (λ p. p.1) q) refl)

  sent_body :
      (o : Result PacketError (SocketAddr × List ℕ)) (bytes : List ℕ) (from : SocketAddr)
      (flags : ℕ) (body : List ℕ) (now : ℕ) (delivered : Bool) (r : Relay)
      → decode_outer (take max_datagram bytes) ≡ ok (forward, flags, body)
      → decode_forward_body body ≡ o
      → ((forward_body hash o from now delivered r).sent ≡ [])
        ⊎ Forwarded (datagram bytes from) now r (forward_body hash o from now delivered r)
  unfolding forward_body
  sent_body (err e) bytes from flags body now delivered r h q = inl refl
  sent_body (ok (dest, inner)) bytes from flags body now delivered r h q =
      sent_new (accept hash inner now r.replay) bytes from dest flags body inner now delivered r h q
        refl

  sent_packet :
      (o : Result PacketError (PacketType × ℕ × List ℕ)) (bytes : List ℕ) (from : SocketAddr)
      (now : ℕ) (delivered : Bool) (r : Relay)
      → decode_outer (take max_datagram bytes) ≡ o
      → ((forward_packet hash o from now delivered r).sent ≡ [])
        ⊎ Forwarded (datagram bytes from) now r (forward_packet hash o from now delivered r)
  unfolding forward_packet same_type
  sent_packet (err e) bytes from now delivered r q = inl refl
  sent_packet (ok (forward, flags, body)) bytes from now delivered r q =
      sent_body (decode_forward_body body) bytes from flags body now delivered r q refl
  sent_packet (ok (_, flags, body)) bytes from now delivered r q = inl refl

  -- Either nothing is sent, or one packet is: to the destination of the forward wrapper that
  -- arrived, only if the cache accepts it, with the sender's address in front of the same inner
  -- packet.
  pub step-sent :
      (x : Received) (now : ℕ) (delivered : Bool) (r : Relay)
      → ((step hash x now delivered r).sent ≡ []) ⊎ Forwarded x now r (step hash x now delivered r)
  unfolding step
  step-sent timed_out now delivered r = inl refl
  step-sent failed now delivered r = inl refl
  step-sent (datagram bytes from) now delivered r =
      sent_packet (decode_outer (take max_datagram bytes)) bytes from now delivered r refl

  -- A packet whose hash the cache holds, recorded less than the TTL ago, is not forwarded.
  pub step-replayed :
      (from dest : SocketAddr) (flags : ℕ) (inner body : List ℕ) (now : ℕ) (delivered : Bool)
      (r : Relay)
      → outer_header_len + length body ≤ max_datagram
      → decode_forward_body body ≡ ok (dest, inner)
      → (accept hash inner now r.replay).1 ≡ false
      → ((step hash (datagram (encode_outer forward flags ++ body) from) now delivered r).sent ≡ [])
        × ((step hash (datagram (encode_outer forward flags ++ body) from) now delivered r).result
            ≡ ok false)
  unfolding forward_new
  step-replayed from dest flags inner body now delivered r fits e a =
      let k : step hash (datagram (encode_outer forward flags ++ body) from) now delivered r
          ≡ quiet record { replay = (accept hash inner now r.replay).0 } =
        step-forward from dest flags inner body now delivered r fits e
        ∙ ap (λ b. forward_new ((accept hash inner now r.replay).0, b) from dest inner delivered)
            a in
      (ap (λ s. s.sent) k, ap (λ s. s.result) k)
