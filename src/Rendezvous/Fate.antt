-- ===== src/Rendezvous/Fate.antt =====
-- What a step of the rendezvous service does to the entry of a token.
use ppo_se_protocol.Common.{
  ℕ, ◌≤◌, ◌≡◌, ◌≢◌, ◌⊎◌, inl, inr, refl, sym, subst, ◌∙◌, Bool, true, false, Option, some, List, [],
  ◌∷◌, Result, ok, err, ltb, ◌==◌, length, get_or, slice, take, arith, dec_lt, ℕ_discrete,
  Bool-cases,
}
use ppo_se_protocol.Common.Table.{get, get-insert_self, get-insert_ne, bytes_discrete}
use ppo_se_protocol.Common.Distinct.{IsDistinct}
use ppo_se_protocol.Wire.{max_datagram, SocketAddr, Received, timed_out, failed, datagram, NodeStep}
use ppo_se_protocol.Packet.{PacketType, PacketError, same_type, rendezvous, decode_outer}
use ppo_se_protocol.Rendezvous.{
  RendezvousService, op_register, op_lookup, expire, register, send_reply, lookup, dispatch, serve,
  step,
}
use ppo_se_protocol.Rendezvous.Laws.{still_live, get-retain_live}
use ppo_se_protocol.Rendezvous.Invariant.{IsValid, step-IsValid}

-- The body of a rendezvous packet registers the token.
abbrev pub IsRegister : List ℕ → List ℕ → Type 0
IsRegister token body =
    (get_or body 0 0 ≡ op_register) × (33 ≤ length body) × (slice body 1 33 ≡ token)

abbrev pub Entry : Type 0
Entry = Option (SocketAddr × ℕ)

abbrev entry : List ℕ → NodeStep RendezvousService → Entry
entry token n = get bytes_discrete token n.state.map

send_reply-entry :
    (token : List ℕ) (r : Result PacketError (List ℕ)) (from : SocketAddr) (delivered : Bool)
    (s : RendezvousService)
    → entry token (send_reply r from delivered s) ≡ get bytes_discrete token s.map
unfolding send_reply
send_reply-entry token (err e) from delivered s = refl
send_reply-entry token (ok pkt) from delivered s = refl

lookup-entry :
    (token body : List ℕ) (from : SocketAddr) (delivered : Bool) (s : RendezvousService)
    → entry token (lookup body from delivered s) ≡ get bytes_discrete token s.map
unfolding lookup
lookup-entry token body from delivered s = elim (Bool-cases (ltb (length body) 33)) [
  | inl short ↦ rw short refl
  | inr long ↦ rw long (send_reply-entry token _ from delivered s)
]

-- A request sets the entry of the token that it registers, and no other one.
module _ (token body : List ℕ) (from : SocketAddr) (stamped : ℕ) (delivered : Bool)
    (s : RendezvousService) where
  abbrev Requested : Entry → Type 0
  Requested after =
      (IsRegister token body × (after ≡ some (from, stamped)))
      ⊎ ((¬ IsRegister token body) × (after ≡ get bytes_discrete token s.map))

  register-Requested :
      get_or body 0 0 ≡ op_register → Requested (entry token (register body from stamped s))
  unfolding register
  register-Requested op = elim (dec_lt (length body) 33) [
    | yes short ↦
        let test : ltb (length body) 33 ≡ true = ground arith in
        inr (λ r. (let long = r.1 in absurd (omega (arith, short, long))), rw test refl)
    | no long ↦
        let test : ltb (length body) 33 ≡ false = ground arith in
        elim (bytes_discrete (slice body 1 33) token) [
          | yes same ↦ inl (
            (op, omega (arith, long), same),
            rw (test, same) (get-insert_self bytes_discrete token (from, stamped) s.map),
          )
          | no other ↦ inr (
            λ r. other r.2,
            rw test
                (get-insert_ne bytes_discrete (slice body 1 33) token (from, stamped) s.map other),
          )
        ]
  ]

  dispatch-Requested : Requested (entry token (dispatch body from stamped delivered s))
  unfolding dispatch
  dispatch-Requested = elim (ℕ_discrete (get_or body 0 0) op_register) [
    | yes op ↦
        let test : (get_or body 0 0 == op_register) ≡ true = ground arith in
        rw test (register-Requested op)
    | no other ↦
        let test : (get_or body 0 0 == op_register) ≡ false = ground arith in
        inr (
          λ r. other r.0,
          rw test (elim (Bool-cases (get_or body 0 0 == op_lookup)) [
            | inl asks ↦ rw asks (lookup-entry token body from delivered s)
            | inr odd ↦ rw odd refl
          ]),
        )
  ]

-- The datagram is a rendezvous packet with a body.
abbrev pub Serves : Received → SocketAddr → List ℕ → Type 0
Serves x from body =
    (bytes : List ℕ) × (flags : ℕ) × (x ≡ datagram bytes from)
    × (decode_outer (take max_datagram bytes) ≡ ok (rendezvous, flags, body))
    × (body ≢ [])

-- What becomes of an entry: it is set by a request that registers the token, with the sender's
-- address and the time; or the request is another one, and the entry stays as long as it is live; or
-- there is no request, and it stays.
abbrev pub Fate : List ℕ → Received → ℕ → ℕ → ℕ → Entry → Entry → Type 0
Fate token x now stamped ttl before after =
    ((from : SocketAddr) × (body : List ℕ) × Serves x from body
      × IsRegister token body
      × (after ≡ some (from, stamped)))
    ⊎ (((from : SocketAddr) × (body : List ℕ) × Serves x from body
          × (¬ IsRegister token body)
          × (after ≡ still_live now ttl before))
        ⊎ (((from : SocketAddr) (body : List ℕ) → ¬ Serves x from body) × (after ≡ before)))

module _ (token : List ℕ) (now stamped : ℕ) (delivered : Bool) (s : RendezvousService)
    (d : IsValid s) where
  abbrev Decoded : Type 0
  Decoded = Result PacketError (PacketType × ℕ × List ℕ)

  request-Fate :
      (bytes body : List ℕ) (flags : ℕ) (from : SocketAddr)
      → decode_outer (take max_datagram bytes) ≡ ok (rendezvous, flags, body)
      → body ≢ []
      → Fate token
          (datagram bytes from)
          now
          stamped
          s.ttl
          (get bytes_discrete token s.map)
          (entry token (dispatch body from stamped delivered (expire now s)))
  unfolding expire
  request-Fate bytes body flags from h ne =
      let serves : Serves (datagram bytes from) from body = (bytes, flags, refl, h, ne) in
      elim (dispatch-Requested token body from stamped delivered (expire now s)) [
        | inl set ↦ inl (from, body, serves, set.0, set.1)
        | inr kept ↦
            inr (inl (from, body, serves, kept.0, kept.1 ∙ get-retain_live now s.ttl token s.map d))
      ]

  serve-Fate :
      (bytes : List ℕ) (from : SocketAddr) (o : Decoded)
      → decode_outer (take max_datagram bytes) ≡ o
      → Fate token
          (datagram bytes from)
          now
          stamped
          s.ttl
          (get bytes_discrete token s.map)
          (entry token (serve o from now stamped delivered s))
  unfolding serve same_type
  serve-Fate bytes from (err e) h = inr (inr (λ from' body' (b, f, is, h', ne). cc, refl))
  serve-Fate bytes from (ok (rendezvous, flags, [])) h =
      inr (inr (λ from' body' (b, f, is, h', ne). ne (cc), refl))
  serve-Fate bytes from (ok (rendezvous, flags, y ∷ ys)) h =
      let test : (length (y ∷ ys) == 0) ≡ false = ground arith in
      rw test (request-Fate bytes (y ∷ ys) flags from h (λ e. cc))
  serve-Fate bytes from (ok (ty, flags, body)) h =
      inr (inr (λ from' body' (b, f, is, h', ne). cc, refl))

-- The service makes the steps that are given.
pub record Turn : Type 0 where
  pub received : Received
  pub at : ℕ
  pub stamped : ℕ
  pub delivered : Bool

unfoldable pub run : List Turn → RendezvousService → RendezvousService
run [] s = s
run (x ∷ xs) s = run xs (step x.received x.at x.stamped x.delivered s).state

run-IsValid : (turns : List Turn) (s : RendezvousService) → IsValid s → IsValid (run turns s)
unfolding run
run-IsValid [] s d = d
run-IsValid (x ∷ xs) s d =
    run-IsValid xs (step x.received x.at x.stamped x.delivered s).state
      (step-IsValid x.received x.at x.stamped x.delivered s d)

-- When the service has made any steps from an empty map, the next step sets the entry of a token
-- only on a rendezvous packet that registers this token, and to the sender's address and the time of
-- the insertion; on any other rendezvous packet with a body the entry stays exactly as long as it is
-- live; and on anything else it stays.
pub step-Fate :
    (turns : List Turn) (s : RendezvousService) (token : List ℕ) (x : Received) (now stamped : ℕ)
    (delivered : Bool)
    → s.map ≡ []
    → let before = run turns s in
      Fate token x now stamped before.ttl
        (get bytes_discrete token before.map)
        (get bytes_discrete token (step x now stamped delivered before).state.map)
unfolding step
step-Fate turns s token timed_out now stamped delivered empty =
    inr (inr (λ from body (b, f, is, h, ne). cc, refl))
step-Fate turns s token failed now stamped delivered empty =
    inr (inr (λ from body (b, f, is, h, ne). cc, refl))
step-Fate turns s token (datagram bytes from) now stamped delivered empty =
    serve-Fate token now stamped delivered (run turns s)
      (run-IsValid turns s (subst (IsDistinct bytes_discrete) (sym empty) tt)) bytes from
      (decode_outer (take max_datagram bytes)) refl
