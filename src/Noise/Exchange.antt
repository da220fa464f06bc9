-- ===== src/Noise/Exchange.antt =====
-- A run of the three messages of Noise XX between two handshake states, as `snow` documents it: the
-- messages of a pattern go out in turn, each is read by the other side, and both sides have finished
-- behind the third.
use ppo_se_protocol.Common.{
  ℕ, ◌+◌, ◌≤◌, ◌≡◌, ap, ◌∙◌, true, false, none, some, List, [], length, ok,
}
use ppo_se_protocol.Wire.{max_datagram}
use ppo_se_protocol.Common.Action.{and_then}
use ppo_se_protocol.Noise.{
  Snow, NoiseSession, shaken, maybe_finish, finish_if, converted, write_handshake, read_handshake,
}

module _ (snow : Snow) where
  -- A message without a payload from one state to the other, and the states behind it.
  pub record Message (from to from' to' : snow.HandshakeState) : Type 0 where
    pub bytes : List ℕ
    pub payload : List ℕ
    pub written : snow.write_message [] max_datagram from ≡ (from', some bytes)
    pub read : snow.read_message bytes max_datagram to ≡ (to', some payload)
    pub fits : 8 + length bytes ≤ max_datagram

  pub record Exchange (initiator responder : snow.HandshakeState) : Type 0 where
    pub a1 : snow.HandshakeState
    pub a2 : snow.HandshakeState
    pub a3 : snow.HandshakeState
    pub b1 : snow.HandshakeState
    pub b2 : snow.HandshakeState
    pub b3 : snow.HandshakeState
    pub first : Message initiator responder a1 b1
    pub second : Message b1 a1 b2 a2
    pub third : Message a2 b2 a3 b3
    pub a1_goes_on : snow.is_handshake_finished a1 ≡ false
    pub a2_goes_on : snow.is_handshake_finished a2 ≡ false
    pub b1_goes_on : snow.is_handshake_finished b1 ≡ false
    pub b2_goes_on : snow.is_handshake_finished b2 ≡ false
    pub a3_finishes : snow.is_handshake_finished a3 ≡ true
    pub b3_finishes : snow.is_handshake_finished b3 ≡ true
    pub a_transport : snow.TransportState
    pub b_transport : snow.TransportState
    pub a_converts : snow.into_transport_mode a3 ≡ some a_transport
    pub b_converts : snow.into_transport_mode b3 ≡ some b_transport

  -- A Noise session in its handshake, and one in transport mode.
  abbrev pub handshaking : snow.HandshakeState → NoiseSession snow
  handshaking hs = record { handshake = some hs; transport = none }

  abbrev pub transporting : snow.TransportState → NoiseSession snow
  transporting ts = record { handshake = none; transport = some ts }

  shaken-on :
      (hs : snow.HandshakeState) (bytes : List ℕ) (s : NoiseSession snow)
      → snow.is_handshake_finished hs ≡ false
      → shaken snow (hs, some bytes) s ≡ (record s { handshake = some hs }, ok bytes)
  unfolding shaken maybe_finish
  shaken-on hs bytes s h =
      ap
        (λ b.
          and_then (finish_if snow b hs record s { handshake = some hs }) (λ _ s. (s, ok bytes)))
        h

  shaken-last :
      (hs : snow.HandshakeState) (ts : snow.TransportState) (bytes : List ℕ) (s : NoiseSession snow)
      → snow.is_handshake_finished hs ≡ true
      → snow.into_transport_mode hs ≡ some ts
      → shaken snow (hs, some bytes) s ≡ (transporting ts, ok bytes)
  unfolding shaken maybe_finish
  shaken-last hs ts bytes s h c =
      ap
        (λ b.
          and_then (finish_if snow b hs record s { handshake = some hs }) (λ _ s. (s, ok bytes)))
        h
      ∙ ap
          (λ o. and_then (converted snow o record s { handshake = some hs }) (λ _ s. (s, ok bytes)))
          c

  -- What the operations of the session make of a message that is not the last, and of the last.
  module _ (from to from' to' : snow.HandshakeState) (m : Message from to from' to') where
    pub write-on :
        snow.is_handshake_finished from' ≡ false
        → write_handshake snow [] max_datagram (handshaking from) ≡ (handshaking from', ok m.bytes)
    unfolding write_handshake
    write-on h =
        ap (λ x. shaken snow x (handshaking from)) m.written
        ∙ shaken-on from' m.bytes (handshaking from) h

    pub read-on :
        snow.is_handshake_finished to' ≡ false
        → read_handshake snow m.bytes max_datagram (handshaking to)
          ≡ (handshaking to', ok m.payload)
    unfolding read_handshake
    read-on h =
        ap (λ x. shaken snow x (handshaking to)) m.read ∙ shaken-on to' m.payload (handshaking to) h

    pub write-last :
        (ts : snow.TransportState)
        → snow.is_handshake_finished from' ≡ true
        → snow.into_transport_mode from' ≡ some ts
        → write_handshake snow [] max_datagram (handshaking from) ≡ (transporting ts, ok m.bytes)
    unfolding write_handshake
    write-last ts h c =
        ap (λ x. shaken snow x (handshaking from)) m.written
        ∙ shaken-last from' ts m.bytes (handshaking from) h c

    pub read-last :
        (ts : snow.TransportState)
        → snow.is_handshake_finished to' ≡ true
        → snow.into_transport_mode to' ≡ some ts
        → read_handshake snow m.bytes max_datagram (handshaking to)
          ≡ (transporting ts, ok m.payload)
    unfolding read_handshake
    read-last ts h c =
        ap (λ x. shaken snow x (handshaking to)) m.read
        ∙ shaken-last to' ts m.payload (handshaking to) h c
