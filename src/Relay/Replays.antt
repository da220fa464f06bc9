-- ===== src/Relay/Replays.antt =====
-- A relay over several steps: it does not forward a packet twice.
use ppo_se_protocol.Common.{
  ℕ, ◌+◌, ◌-◌, ◌≤◌, ◌<◌, ◌≡◌, ◌⊎◌, inl, inr, refl, ap, ◌∙◌, Bool, true, false, List, [], ◌∷◌, ◌++◌,
  Result, ok, err, length, take, All, arith, if-either,
}
use ppo_se_protocol.Common.Table.{bytes_discrete}
use ppo_se_protocol.Common.Distinct.{IsDistinct}
use ppo_se_protocol.Wire.{
  max_datagram, outer_header_len, SocketAddr, IoError, Received, timed_out, failed, datagram,
  NodeStep,
}
use ppo_se_protocol.Packet.{PacketType, forward, PacketError, encode_outer, decode_outer, same_type}
use ppo_se_protocol.Forward.{encode_forward_body, decode_forward_body}
use ppo_se_protocol.Replay.{ReplayCache, accept}
use ppo_se_protocol.Replay.Window.{accept_all, accept-replayed}
use ppo_se_protocol.Relay.{
  Relay, Turn, Run, go_on, run_until, send_on, forward_new, forward_body, forward_packet, step,
}
use ppo_se_protocol.Relay.Laws.{step-forward, step-replayed}

module _ (hash : List ℕ → List ℕ) where
  -- The states after the turns.
  unfoldable pub run : List Turn → Relay → Relay
  run [] r = r
  run (x ∷ xs) r = run xs (step hash x.received x.at x.delivered r).state

  go_on-ok :
      (r : Relay) (packets : List (List ℕ × SocketAddr)) (o : Result IoError Bool) (rest : Run)
      → (go_on r packets o rest).result ≡ ok tt
      → (rest.result ≡ ok tt) × ((go_on r packets o rest).state ≡ rest.state)
  unfolding go_on
  go_on-ok r packets (err e) rest h = absurd (cc h)
  go_on-ok r packets (ok b) rest h = (h, refl)

  -- A loop that ends without an error has made every turn.
  run_until-run :
      (turns : List Turn) (r : Relay)
      → (run_until hash turns r).result ≡ ok tt
      → (run_until hash turns r).state ≡ run turns r
  unfolding run_until run
  run_until-run [] r h = refl
  run_until-run (x ∷ xs) r h =
      let t = step hash x.received x.at x.delivered r in
      let rest = run_until hash xs t.state in
      let (good, same) = go_on-ok t.state t.sent t.result rest h in
      same ∙ run_until-run xs t.state good

  -- A step offers at most one packet to the cache.
  Offers : ℕ → Relay → Relay → Type 0
  Offers now r r' =
      (r'.replay ≡ r.replay) ⊎ ((inner : List ℕ) × (r'.replay ≡ (accept hash inner now r.replay).0))

  send_on-replay :
      (o : Result PacketError (List ℕ)) (dest : SocketAddr) (delivered : Bool) (r : Relay)
      → (send_on o dest delivered r).state.replay ≡ r.replay
  unfolding send_on
  send_on-replay (err e) dest delivered r = refl
  send_on-replay (ok b) dest delivered r = refl

  forward_new-replay :
      (a : ReplayCache × Bool) (from dest : SocketAddr) (inner : List ℕ) (delivered : Bool)
      → (forward_new a from dest inner delivered).state.replay ≡ a.0
  unfolding forward_new
  forward_new-replay (c, false) from dest inner delivered = refl
  forward_new-replay (c, true) from dest inner delivered =
      send_on-replay (encode_forward_body from inner) dest delivered record { replay = c }

  forward_body-Offers :
      (o : Result PacketError (SocketAddr × List ℕ)) (from : SocketAddr) (now : ℕ)
      (delivered : Bool) (r : Relay)
      → Offers now r (forward_body hash o from now delivered r).state
  unfolding forward_body Offers
  forward_body-Offers (err e) from now delivered r = inl refl
  forward_body-Offers (ok (dest, inner)) from now delivered r =
      inr (inner, forward_new-replay (accept hash inner now r.replay) from dest inner delivered)

  forward_packet-Offers :
      (o : Result PacketError (PacketType × ℕ × List ℕ)) (from : SocketAddr) (now : ℕ)
      (delivered : Bool) (r : Relay)
      → Offers now r (forward_packet hash o from now delivered r).state
  unfolding forward_packet Offers
  forward_packet-Offers (err e) from now delivered r = inl refl
  forward_packet-Offers (ok (ty, flags, body)) from now delivered r =
      if-either (λ (n : NodeStep Relay). Offers now r n.state) (same_type ty forward) _ _
        (forward_body-Offers (decode_forward_body body) from now delivered r) (inl refl)

  step-Offers :
      (x : Received) (now : ℕ) (delivered : Bool) (r : Relay)
      → Offers now r (step hash x now delivered r).state
  unfolding step Offers
  step-Offers timed_out now delivered r = inl refl
  step-Offers failed now delivered r = inl refl
  step-Offers (datagram bytes from) now delivered r =
      forward_packet-Offers (decode_outer (take max_datagram bytes)) from now delivered r

  -- The cache after some turns is the one after the packets that they offered.
  record Offered (t ttl : ℕ) (turns : List Turn) (r : Relay) : Type 0 where
    packets : List (List ℕ × ℕ)
    cache : (run turns r).replay ≡ accept_all hash packets r.replay
    few : length packets ≤ length turns
    timely : All (λ o. o.1 - t < ttl) packets

  run-Offered :
      (t ttl : ℕ) (turns : List Turn) (r : Relay)
      → All (λ (x : Turn). x.at - t < ttl) turns
      → Offered t ttl turns r
  unfolding run accept_all Offers
  run-Offered t ttl [] r h = record { packets = []; cache = refl; few = omega arith; timely = tt }
  run-Offered t ttl (x ∷ xs) r h =
      let r' : Relay = (step hash x.received x.at x.delivered r).state in
      let ih : Offered t ttl xs r' = run-Offered t ttl xs r' h.1 in
      elim (step-Offers x.received x.at x.delivered r) [
        | inl same ↦ record {
          packets = ih.packets;
          cache = ih.cache ∙ ap (accept_all hash ih.packets) same;
          few = (let f = ih.few in omega (arith, f));
          timely = ih.timely;
        }
        | inr (inner, e) ↦ record {
          packets = (inner, x.at) ∷ ih.packets;
          cache = ih.cache ∙ ap (accept_all hash ih.packets) e;
          few = (let f = ih.few in omega (arith, f));
          timely = (h.0, ih.timely);
        }
      ]

  -- A relay whose cache has distinct keys and accepts a forwarded packet, when every entry is
  -- older, does not forward its inner packet again within the TTL, from whatever sender and to
  -- whatever destination it comes, if the turns between lie within the TTL and are fewer than the
  -- cache's capacity. Both packets fit a datagram.
  pub run-replayed :
      (from dest from' dest' : SocketAddr) (flags flags' : ℕ) (inner body body' : List ℕ)
      (t now : ℕ) (delivered delivered' : Bool) (turns : List Turn) (r : Relay)
      → IsDistinct bytes_discrete r.replay.seen
      → All (λ e. e.1 < t) r.replay.seen
      → outer_header_len + length body ≤ max_datagram
      → outer_header_len + length body' ≤ max_datagram
      → decode_forward_body body ≡ ok (dest, inner)
      → decode_forward_body body' ≡ ok (dest', inner)
      → (accept hash inner t r.replay).1 ≡ true
      → length turns < r.replay.cap
      → All (λ (x : Turn). x.at - t < r.replay.ttl) turns
      → now - t < r.replay.ttl
      → (step hash (datagram (encode_outer forward flags' ++ body') from') now delivered' (
          run turns
            (step hash
              (datagram (encode_outer forward flags ++ body) from)
              t
              delivered
              r).state)).sent
        ≡ []
  run-replayed from dest from' dest' flags flags' inner body body' t now delivered delivered' turns
        r d old fits fits' w w' a few near soon =
      let first : Relay =
        (step hash (datagram (encode_outer forward flags ++ body) from) t delivered r).state in
      let kept : first.replay ≡ (accept hash inner t r.replay).0 =
        ap (λ (n : NodeStep Relay). n.state.replay)
          (step-forward hash from dest flags inner body t delivered r fits w)
        ∙ forward_new-replay (accept hash inner t r.replay) from dest inner delivered in
      let o : Offered t r.replay.ttl turns first = run-Offered t r.replay.ttl turns first near in
      let last : Relay = run turns first in
      let cache : last.replay ≡ accept_all hash o.packets (accept hash inner t r.replay).0 =
        o.cache ∙ ap (accept_all hash o.packets) kept in
      let refused : (accept hash inner now last.replay).1 ≡ false =
        ap (λ c. (accept hash inner now c).1) cache
        ∙ accept-replayed hash inner t now o.packets r.replay d old a
            (let f = o.few in omega (arith, f, few)) o.timely soon in
      (step-replayed hash from' dest' flags' inner body' now delivered' last fits' w' refused).0
