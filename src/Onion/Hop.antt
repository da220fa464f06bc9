-- ===== src/Onion/Hop.antt =====
-- What a step of an onion hop sends.
use ppo_se_protocol.Common.{
  ℕ, ◌≤◌, ◌≡◌, ◌⊎◌, inl, inr, refl, ap, ◌∙◌, Bool, true, false, List, [], ◌∷◌, Result, none, some,
  ok, err, ltb, le→ltb, if◌then◌else◌, length, take, take_all, arith, Bool-cases,
}
use ppo_se_protocol.Wire.{
  max_datagram, SocketAddr, Received, timed_out, failed, datagram, NodeStep, quiet, sends,
}
use ppo_se_protocol.Packet.{PacketType, onion, PacketError, decode_outer, same_type}
use ppo_se_protocol.Crypto.{Primitives}
use ppo_se_protocol.Replay.{ReplayCache, accept}
use ppo_se_protocol.Onion.Route.{peeled_of, peel_wire}
use ppo_se_protocol.Onion.{
  Peeled, OnionRelay, peel_layer, send_peeled, forward_peeled, peel_packet, step,
}

module _ (prims : Primitives) where
  -- What arrived, what the hop peeled off it, and what the step sent.
  pub record Forwarded (x : Received) (now : ℕ) (r : OnionRelay) (s : NodeStep OnionRelay)
      : Type 0 where
    pub bytes : List ℕ
    pub from : SocketAddr
    pub flags : ℕ
    pub body : List ℕ
    pub peeled : Peeled
    pub arrived : x ≡ datagram bytes from
    pub header : decode_outer (take max_datagram bytes) ≡ ok (onion, flags, body)
    pub opened : peel_layer prims r.local body ≡ ok peeled
    pub fresh : (accept prims.blake3 peeled.payload now r.replay).1 ≡ true
    pub fits : length peeled.payload ≤ max_datagram
    pub sent : s.sent ≡ (peeled.payload, peeled.next) ∷ []

  sent_peeled :
      (a : ReplayCache × Bool) (bytes : List ℕ) (from : SocketAddr) (flags : ℕ) (body : List ℕ)
      (p : Peeled) (now : ℕ) (delivered : Bool) (r : OnionRelay)
      → decode_outer (take max_datagram bytes) ≡ ok (onion, flags, body)
      → peel_layer prims r.local body ≡ ok p
      → (accept prims.blake3 p.payload now r.replay).1 ≡ a.1
      → ((send_peeled a p delivered r).sent ≡ [])
        ⊎ Forwarded (datagram bytes from) now r (send_peeled a p delivered r)
  unfolding send_peeled
  sent_peeled (c, false) bytes from flags body p now delivered r h o q = inl refl
  sent_peeled (c, true) bytes from flags body p now delivered r h o q =
      elim (Bool-cases (ltb max_datagram (length p.payload))) [
        | inl big ↦ inl (
            ap
              (λ (b : Bool). NodeStep.sent (
                if b
                then quiet record r { replay = c }
                else sends record r { replay = c } delivered p.payload p.next))
              big)
        | inr small ↦ inr record {
          bytes = bytes;
          from = from;
          flags = flags;
          body = body;
          peeled = p;
          arrived = refl;
          header = h;
          opened = o;
          fresh = q;
          fits = ground (arith, small);
          sent =
              ap
                (λ (b : Bool). NodeStep.sent (
                  if b
                  then quiet record r { replay = c }
                  else sends record r { replay = c } delivered p.payload p.next))
                small;
        }
      ]

  sent_opened :
      (o : Result PacketError Peeled) (bytes : List ℕ) (from : SocketAddr) (flags : ℕ)
      (body : List ℕ) (now : ℕ) (delivered : Bool) (r : OnionRelay)
      → decode_outer (take max_datagram bytes) ≡ ok (onion, flags, body)
      → peel_layer prims r.local body ≡ o
      → ((forward_peeled prims o now delivered r).sent ≡ [])
        ⊎ Forwarded (datagram bytes from) now r (forward_peeled prims o now delivered r)
  unfolding forward_peeled
  sent_opened (err e) bytes from flags body now delivered r h q = inl refl
  sent_opened (ok p) bytes from flags body now delivered r h q =
      sent_peeled (accept prims.blake3 p.payload now r.replay) bytes from flags body p now delivered
        r h q refl

  sent_packet :
      (o : Result PacketError (PacketType × ℕ × List ℕ)) (bytes : List ℕ) (from : SocketAddr)
      (now : ℕ) (delivered : Bool) (r : OnionRelay)
      → decode_outer (take max_datagram bytes) ≡ o
      → ((peel_packet prims o now delivered r).sent ≡ [])
        ⊎ Forwarded (datagram bytes from) now r (peel_packet prims o now delivered r)
  unfolding peel_packet same_type
  sent_packet (err e) bytes from now delivered r q = inl refl
  sent_packet (ok (onion, flags, body)) bytes from now delivered r q =
      sent_opened (peel_layer prims r.local body) bytes from flags body now delivered r q refl
  sent_packet (ok (_, flags, body)) bytes from now delivered r q = inl refl

  -- Either a hop sends nothing, or it sends what it peeled off the onion packet that arrived, to the
  -- address that it read there, and only if the cache accepts the payload and it fits a datagram.
  pub step-peeled :
      (x : Received) (now : ℕ) (delivered : Bool) (r : OnionRelay)
      → ((step prims x now delivered r).sent ≡ [])
        ⊎ Forwarded x now r (step prims x now delivered r)
  unfolding step
  step-peeled timed_out now delivered r = inl refl
  step-peeled failed now delivered r = inl refl
  step-peeled (datagram bytes from) now delivered r =
      sent_packet (decode_outer (take max_datagram bytes)) bytes from now delivered r refl

  peeled-inj : {p q : Peeled} → some p ≡ some q → p ≡ q
  peeled-inj h = cc h

  opened_branch :
      (b : Bool) (o : Result PacketError Peeled) (p : Peeled) (now : ℕ) (delivered : Bool)
      (r : OnionRelay)
      → (if b then elim o [ err e ↦ none | ok q ↦ some q ] else none) ≡ some p
      → (if b then forward_peeled prims o now delivered r else quiet r)
        ≡ forward_peeled prims (ok p) now delivered r
  opened_branch true (ok q) p now delivered r h =
      ap (λ x. forward_peeled prims (ok x) now delivered r) (peeled-inj h)
  opened_branch true (err e) p now delivered r h = absurd (cc h)
  opened_branch false o p now delivered r h = absurd (cc h)

  opened_of :
      (o : Result PacketError (PacketType × ℕ × List ℕ)) (p : Peeled) (now : ℕ) (delivered : Bool)
      (r : OnionRelay)
      → peeled_of prims r.local o ≡ some p
      → peel_packet prims o now delivered r ≡ forward_peeled prims (ok p) now delivered r
  unfolding peel_packet
  opened_of (err e) p now delivered r h = absurd (cc h)
  opened_of (ok (ty, flags, body)) p now delivered r h =
      opened_branch (same_type ty onion) (peel_layer prims r.local body) p now delivered r h

  -- A hop that can peel the datagram that arrived, of at most 1200 bytes, and whose cache accepts
  -- the payload, sends the payload to the address that it read, if it fits a datagram.
  pub step-peels :
      (wire : List ℕ) (from : SocketAddr) (p : Peeled) (now : ℕ) (delivered : Bool) (r : OnionRelay)
      (kept : ReplayCache)
      → length wire ≤ max_datagram
      → peel_wire prims r.local wire ≡ some p
      → accept prims.blake3 p.payload now r.replay ≡ (kept, true)
      → length p.payload ≤ max_datagram
      → step prims (datagram wire from) now delivered r
        ≡ sends record r { replay = kept } delivered p.payload p.next
  unfolding step peel_wire forward_peeled send_peeled
  step-peels wire from p now delivered r kept short h k fits =
      ap (λ b. peel_packet prims (decode_outer b) now delivered r)
        (take_all max_datagram wire short)
      ∙ opened_of (decode_outer wire) p now delivered r h
      ∙ ap (λ a. send_peeled a p delivered r) k
      ∙ ap
          (λ b.
            if b
            then quiet record r { replay = kept }
            else sends record r { replay = kept } delivered p.payload p.next)
          (le→ltb max_datagram (length p.payload) fits)
