-- ===== src/Noise.antt =====
-- crypto/noise.rs: the Noise XX session. The state machine of the package `snow` is a parameter: its
-- states are types, and its methods give the new state and, where they succeed, the bytes that they
-- put into the output buffer, of the given size.
pub mod Machine
pub mod Ordered
pub mod Exchange
pub mod Pin
use ppo_se_protocol.Common.{
  ℕ, Bool, true, false, Option, none, some, List, Result, ok, err, length, ℕ_discrete,
}
use ppo_se_protocol.Common.Table.{bytes_discrete}
use ppo_se_protocol.Common.Action.{Action, and_then}

pub data HandshakeRole : Type 0 where
  initiator responder : HandshakeRole

-- The texts that go with the first two are left out.
pub data NoiseError : Type 0 where
  setup crypto bad_state key_mismatch no_remote_static : NoiseError

-- The builders take the static key and the randomness that the handshake will draw.
pub record Snow : Type 1 where
  pub HandshakeState : Type 0
  pub TransportState : Type 0
  pub build_initiator : List ℕ → List ℕ → Option HandshakeState
  pub build_responder : List ℕ → List ℕ → Option HandshakeState
  pub write_message : List ℕ → ℕ → HandshakeState → HandshakeState × Option (List ℕ)
  pub read_message : List ℕ → ℕ → HandshakeState → HandshakeState × Option (List ℕ)
  pub is_handshake_finished : HandshakeState → Bool
  pub into_transport_mode : HandshakeState → Option TransportState
  pub write_transport : List ℕ → ℕ → TransportState → TransportState × Option (List ℕ)
  pub read_transport : List ℕ → ℕ → TransportState → TransportState × Option (List ℕ)
  pub get_remote_static : TransportState → Option (List ℕ)

-- `remote_static` and `pin_remote`, on the key that `snow` reports.
abbrev pub copied_if : {P : Type 0} → Dec P → List ℕ → Result NoiseError (List ℕ)
copied_if (no _) slice = err no_remote_static
copied_if (yes _) slice = ok slice

abbrev pub of_length_32 : Option (List ℕ) → Result NoiseError (List ℕ)
of_length_32 none = err no_remote_static
of_length_32 (some slice) = copied_if (ℕ_discrete (length slice) 32) slice

abbrev pub matched : {P : Type 0} → Dec P → Result NoiseError (Unit {0})
matched (no _) = err key_mismatch
matched (yes _) = ok tt

abbrev pub pinned : List ℕ → Result NoiseError (List ℕ) → Result NoiseError (Unit {0})
pinned expected (err e) = err e
pinned expected (ok got) = matched (bytes_discrete got expected)

module _ (snow : Snow) where
  pub record NoiseSession : Type 0 where
    pub handshake : Option snow.HandshakeState
    pub transport : Option snow.TransportState

  -- `NoiseSession::new`; the parameters are a constant that parses.
  abbrev pub build : HandshakeRole → List ℕ → List ℕ → Option snow.HandshakeState
  build initiator local seed = snow.build_initiator local seed
  build responder local seed = snow.build_responder local seed

  abbrev pub started : Option snow.HandshakeState → Result NoiseError NoiseSession
  started none = err setup
  started (some hs) = ok record { handshake = some hs; transport = none }

  unfoldable pub new : HandshakeRole → List ℕ → List ℕ → Result NoiseError NoiseSession
  new role local seed = started (build role local seed)

  abbrev pub is_transport : NoiseSession → Bool
  is_transport s = elim s.transport [ none ↦ false | some ts ↦ true ]

  -- `maybe_finish`: `take` empties the handshake before the conversion, which may fail.
  abbrev pub converted :
      Option snow.TransportState → NoiseSession → NoiseSession × Result NoiseError (Unit {0})
  converted none s = (record s { handshake = none }, err crypto)
  converted (some ts) s = (record { handshake = none; transport = some ts }, ok tt)

  abbrev pub finish_if :
      Bool → snow.HandshakeState → NoiseSession → NoiseSession × Result NoiseError (Unit {0})
  finish_if false hs s = (s, ok tt)
  finish_if true hs s = converted (snow.into_transport_mode hs) s

  unfoldable pub maybe_finish : Action NoiseSession NoiseError (Unit {0})
  maybe_finish s = elim s.handshake [
    | none ↦ (s, ok tt)
    | some hs ↦ finish_if (snow.is_handshake_finished hs) hs s
  ]

  -- After the call of `snow`: its result, then `maybe_finish`.
  unfoldable pub shaken :
      snow.HandshakeState × Option (List ℕ)
      → NoiseSession
      → NoiseSession × Result NoiseError (List ℕ)
  unfolding maybe_finish
  shaken (hs, none) s = (record s { handshake = some hs }, err crypto)
  shaken (hs, some bytes) s =
      and_then (maybe_finish record s { handshake = some hs }) (λ _ s. (s, ok bytes))

  abbrev pub shake :
      (snow.HandshakeState → snow.HandshakeState × Option (List ℕ))
      → Option snow.HandshakeState
      → NoiseSession
      → NoiseSession × Result NoiseError (List ℕ)
  shake f none s = (s, err bad_state)
  shake f (some hs) s = shaken (f hs) s

  -- The operations give `out[..n]`; `room` is the length of `out`.
  unfoldable pub write_handshake : List ℕ → ℕ → Action NoiseSession NoiseError (List ℕ)
  unfolding shaken
  write_handshake payload room s = shake (snow.write_message payload room) s.handshake s

  unfoldable pub read_handshake : List ℕ → ℕ → Action NoiseSession NoiseError (List ℕ)
  unfolding shaken
  read_handshake msg room s = shake (snow.read_message msg room) s.handshake s

  abbrev pub transported :
      snow.TransportState × Option (List ℕ)
      → NoiseSession
      → NoiseSession × Result NoiseError (List ℕ)
  transported (ts, none) s = (record s { transport = some ts }, err crypto)
  transported (ts, some bytes) s = (record s { transport = some ts }, ok bytes)

  abbrev pub carry :
      (snow.TransportState → snow.TransportState × Option (List ℕ))
      → Option snow.TransportState
      → NoiseSession
      → NoiseSession × Result NoiseError (List ℕ)
  carry f none s = (s, err bad_state)
  carry f (some ts) s = transported (f ts) s

  unfoldable pub seal : List ℕ → ℕ → Action NoiseSession NoiseError (List ℕ)
  seal plaintext room s = carry (snow.write_transport plaintext room) s.transport s

  unfoldable pub open_sealed : List ℕ → ℕ → Action NoiseSession NoiseError (List ℕ)
  open_sealed ciphertext room s = carry (snow.read_transport ciphertext room) s.transport s

  abbrev pub static_of : Option snow.TransportState → Result NoiseError (List ℕ)
  static_of none = err bad_state
  static_of (some ts) = of_length_32 (snow.get_remote_static ts)

  unfoldable pub remote_static : NoiseSession → Result NoiseError (List ℕ)
  remote_static s = static_of s.transport

  unfoldable pub pin_remote : List ℕ → NoiseSession → Result NoiseError (Unit {0})
  unfolding remote_static
  pin_remote expected s = pinned expected (remote_static s)
