-- ===== src/Noise/Machine.antt =====
-- The Noise session against a machine of three phases that knows nothing of keys and messages.
use ppo_se_protocol.Common.{
  ℕ, ◌≡◌, refl, sym, subst, Bool, true, false, Option, none, some, List, [], ◌∷◌, Result, ok, err,
  ok-inj,
}
use ppo_se_protocol.Common.Action.{Action, and_then}
use ppo_se_protocol.Noise.{
  Snow, HandshakeRole, NoiseError, crypto, bad_state, NoiseSession, new, started, build, finish_if,
  converted, maybe_finish, shaken, shake, carry, transported, write_handshake, read_handshake, seal,
  open_sealed,
}

-- Exchanging handshake messages; encrypting; and neither, when the conversion failed.
pub data Phase : Type 0 where
  shaking transporting broken : Phase

-- Each operation with its input and the size of its buffer.
pub data Call : Type 0 where
  writes_handshake reads_handshake seals opens : List ℕ → ℕ → Call

abbrev pub is_handshake : Call → Bool
is_handshake (writes_handshake _ _) = true
is_handshake (reads_handshake _ _) = true
is_handshake _ = false

-- The phase in which a call can succeed.
abbrev pub phase_of : Bool → Phase
phase_of true = shaking
phase_of false = transporting

-- What a call may answer in a phase, and the phase after it. Whatever else it is, a call outside its
-- phase is refused and changes nothing.
pub data Step : Bool → Phase → Result NoiseError (List ℕ) → Phase → Type 0 where
  shakes : (bytes : List ℕ) → Step true shaking (ok bytes) shaking
  finishes : (bytes : List ℕ) → Step true shaking (ok bytes) transporting
  fails : Step true shaking (err crypto) shaking
  breaks : Step true shaking (err crypto) broken
  transports : (bytes : List ℕ) → Step false transporting (ok bytes) transporting
  rejects : Step false transporting (err crypto) transporting
  handshake_over : Step true transporting (err bad_state) transporting
  not_yet : Step false shaking (err bad_state) shaking
  refused : (h : Bool) → Step h broken (err bad_state) broken

-- The results of a sequence of calls.
pub data Trace : Phase → List (Bool × Result NoiseError (List ℕ)) → Phase → Type 0 where
  nil : (p : Phase) → Trace p [] p
  cons :
      (h : Bool) (r : Result NoiseError (List ℕ)) (rs : List (Bool × Result NoiseError (List ℕ)))
      (p q z : Phase)
      → Step h p r q
      → Trace q rs z
      → Trace p ((h, r) ∷ rs) z

module _ (snow : Snow) where
  -- The phase that a session is in: of the two states it has at most one.
  abbrev pub InPhase : Phase → NoiseSession snow → Type 0
  InPhase shaking s = (s.transport ≡ none) × (hs : snow.HandshakeState) × (s.handshake ≡ some hs)
  InPhase transporting s =
      (s.handshake ≡ none) × (ts : snow.TransportState) × (s.transport ≡ some ts)
  InPhase broken s = (s.handshake ≡ none) × (s.transport ≡ none)

  abbrev pub call : Call → Action (NoiseSession snow) NoiseError (List ℕ)
  call (writes_handshake payload room) = write_handshake snow payload room
  call (reads_handshake msg room) = read_handshake snow msg room
  call (seals plaintext room) = seal snow plaintext room
  call (opens ciphertext room) = open_sealed snow ciphertext room

  -- One after another, and what each answered.
  unfoldable pub calls :
      List Call → NoiseSession snow → NoiseSession snow × List (Bool × Result NoiseError (List ℕ))
  unfolding write_handshake read_handshake seal open_sealed
  calls [] s = (s, [])
  calls (c ∷ cs) s =
      let (s', r) = call c s in let (z, rs) = calls cs s' in (z, (is_handshake c, r) ∷ rs)

  -- A step of the machine from `p` that ends in the phase of the session.
  abbrev pub Follows : Bool → Phase → NoiseSession snow × Result NoiseError (List ℕ) → Type 0
  Follows h p (s, r) = (q : Phase) × InPhase q s × Step h p r q

  -- `Ok(n)` behind `maybe_finish`.
  abbrev pub answer :
      List ℕ
      → NoiseSession snow × Result NoiseError (Unit {0})
      → NoiseSession snow × Result NoiseError (List ℕ)
  answer bytes x = and_then x (λ _ s. (s, ok bytes))

  converted-Follows :
      (o : Option snow.TransportState) (bytes : List ℕ) (s : NoiseSession snow)
      → s.transport ≡ none
      → Follows true shaking (answer bytes (converted snow o s))
  converted-Follows none bytes s t = (broken, (refl, t), breaks)
  converted-Follows (some ts) bytes s t = (transporting, (refl, ts, refl), finishes bytes)

  finish_if-Follows :
      (b : Bool) (hs : snow.HandshakeState) (bytes : List ℕ) (s : NoiseSession snow)
      → s.transport ≡ none
      → s.handshake ≡ some hs
      → Follows true shaking (answer bytes (finish_if snow b hs s))
  finish_if-Follows false hs bytes s t h = (shaking, (t, hs, h), shakes bytes)
  finish_if-Follows true hs bytes s t h = converted-Follows (snow.into_transport_mode hs) bytes s t

  shaken-Follows :
      (x : snow.HandshakeState × Option (List ℕ)) (s : NoiseSession snow)
      → s.transport ≡ none
      → Follows true shaking (shaken snow x s)
  unfolding shaken maybe_finish
  shaken-Follows (hs, none) s t = (shaking, (t, hs, refl), fails)
  shaken-Follows (hs, some bytes) s t =
      finish_if-Follows (snow.is_handshake_finished hs) hs bytes record s { handshake = some hs } t
        refl

  transported-Follows :
      (x : snow.TransportState × Option (List ℕ)) (s : NoiseSession snow)
      → s.handshake ≡ none
      → Follows false transporting (transported snow x s)
  transported-Follows (ts, none) s h = (transporting, (h, ts, refl), rejects)
  transported-Follows (ts, some bytes) s h = (transporting, (h, ts, refl), transports bytes)

  shake-Follows :
      (f : snow.HandshakeState → snow.HandshakeState × Option (List ℕ)) (p : Phase)
      (s : NoiseSession snow)
      → InPhase p s
      → Follows true p (shake snow f s.handshake s)
  shake-Follows f shaking s (t, hs, h) =
      subst (λ o. Follows true shaking (shake snow f o s)) (sym h) (shaken-Follows (f hs) s t)
  shake-Follows f transporting s i =
      subst (λ o. Follows true transporting (shake snow f o s)) (sym i.0)
        (transporting, i, handshake_over)
  shake-Follows f broken s i =
      subst (λ o. Follows true broken (shake snow f o s)) (sym i.0) (broken, i, refused true)

  carry-Follows :
      (f : snow.TransportState → snow.TransportState × Option (List ℕ)) (p : Phase)
      (s : NoiseSession snow)
      → InPhase p s
      → Follows false p (carry snow f s.transport s)
  carry-Follows f transporting s (h, ts, t) =
      subst (λ o. Follows false transporting (carry snow f o s)) (sym t)
        (transported-Follows (f ts) s h)
  carry-Follows f shaking s i =
      subst (λ o. Follows false shaking (carry snow f o s)) (sym i.0) (shaking, i, not_yet)
  carry-Follows f broken s i =
      subst (λ o. Follows false broken (carry snow f o s)) (sym i.1) (broken, i, refused false)

  call-Follows :
      (c : Call) (p : Phase) (s : NoiseSession snow)
      → InPhase p s
      → Follows (is_handshake c) p (call c s)
  unfolding write_handshake read_handshake seal open_sealed
  call-Follows (writes_handshake payload room) = shake-Follows (snow.write_message payload room)
  call-Follows (reads_handshake msg room) = shake-Follows (snow.read_message msg room)
  call-Follows (seals plaintext room) = carry-Follows (snow.write_transport plaintext room)
  call-Follows (opens ciphertext room) = carry-Follows (snow.read_transport ciphertext room)

  calls-Follow :
      (cs : List Call) (p : Phase) (s : NoiseSession snow)
      → InPhase p s
      → (q : Phase) × InPhase q (calls cs s).0 × Trace p (calls cs s).1 q
  unfolding calls
  calls-Follow [] p s i = (p, i, nil p)
  calls-Follow (c ∷ cs) p s i =
      let (q, j, step) = call-Follows c p s i in
      let (z, k, rest) = calls-Follow cs q (call c s).0 j in
      (z, k, cons (is_handshake c) (call c s).1 (calls cs (call c s).0).1 p q z step rest)

  started-shaking :
      (o : Option snow.HandshakeState) (s : NoiseSession snow)
      → started snow o ≡ ok s
      → InPhase shaking s
  started-shaking none s e = absurd (cc e)
  started-shaking (some hs) s e = subst (InPhase shaking) (ok-inj e) (refl, hs, refl)

  -- What a session that `new` gives answers to any sequence of calls of its four operations is a
  -- trace of the machine, from the exchange of handshake messages on, and the session ends in the
  -- phase that the trace ends in: it never has a handshake and a transport state at once.
  pub new-calls :
      (role : HandshakeRole) (local seed : List ℕ) (s : NoiseSession snow) (cs : List Call)
      → new snow role local seed ≡ ok s
      → (q : Phase) × InPhase q (calls cs s).0 × Trace shaking (calls cs s).1 q
  unfolding new
  new-calls role local seed s cs e =
      calls-Follow cs shaking s (started-shaking (build snow role local seed) s e)
