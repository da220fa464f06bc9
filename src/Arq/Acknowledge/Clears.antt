-- ===== src/Arq/Acknowledge/Clears.antt =====
-- An ACK that covers all frames in flight leaves none.
use ppo_se_protocol.Common.{
  ℕ, ◌<◌, ◌^◌, ◌≡◌, refl, ap, sym, ◌∙◌, Bool, true, false, List, [], ◌∷◌, append-nil, All,
  if◌then◌else◌,
}
use ppo_se_protocol.Frame.{encode_ack, decode_inner}
use ppo_se_protocol.Frame.Codec.{decode_inner-encode_ack}
use ppo_se_protocol.Arq.{Arq, Outgoing}
use ppo_se_protocol.Arq.Acknowledge.{acked, drop_acked, on_ack}
use ppo_se_protocol.Arq.Ingest.{ingest, ingest_frame}

keep-All :
    (P : ℕ → Type 0) (b : Bool) (e : ℕ × Outgoing) (rest : List (ℕ × Outgoing))
    → P e.0
    → All (λ e. P e.0) rest
    → All (λ e. P e.0) (if b then rest else e ∷ rest)
keep-All P true e rest p h = h
keep-All P false e rest p h = (p, h)

drop_acked-All :
    (P : ℕ → Type 0) (base bitmap : ℕ) (m : List (ℕ × Outgoing))
    → All (λ e. P e.0) m
    → All (λ e. P e.0) (drop_acked base bitmap m)
unfolding drop_acked
drop_acked-All P base bitmap [] h = tt
drop_acked-All P base bitmap ((k, slot) ∷ m) h =
    keep-All P (acked base bitmap k) (k, slot) (drop_acked base bitmap m) h.0
      (drop_acked-All P base bitmap m h.1)

drop_acked-none :
    (base bitmap : ℕ) (m : List (ℕ × Outgoing))
    → All (λ e. acked base bitmap e.0 ≡ true) m
    → drop_acked base bitmap m ≡ []
unfolding drop_acked
drop_acked-none base bitmap [] h = refl
drop_acked-none base bitmap ((k, slot) ∷ m) h =
    ap (λ b. if b then drop_acked base bitmap m else (k, slot) ∷ drop_acked base bitmap m) h.0
    ∙ drop_acked-none base bitmap m h.1

-- An ACK that comes in adds no frame to those in flight.
pub ingest_ack-All :
    (P : ℕ → Type 0) (base bitmap : ℕ) (s : Arq)
    → All (λ e. P e.0) s.unacked
    → All (λ e. P e.0) (ingest (encode_ack base bitmap) s).0.unacked
unfolding encode_ack decode_inner ingest ingest_frame on_ack
ingest_ack-All P base bitmap s h = drop_acked-All P _ _ s.unacked h

pub ingest_ack-none :
    (base bitmap : ℕ) (s : Arq)
    → base < 2 ^ 32
    → bitmap < 2 ^ 64
    → All (λ e. acked base bitmap e.0 ≡ true) s.unacked
    → (ingest (encode_ack base bitmap) s).0.unacked ≡ []
unfolding ingest ingest_frame on_ack
ingest_ack-none base bitmap s low small h =
    ap (λ text. (ingest_frame (decode_inner text) s).0.unacked)
      (sym (append-nil (encode_ack base bitmap)))
    ∙ ap (λ o. (ingest_frame o s).0.unacked) (decode_inner-encode_ack base bitmap [] low small)
    ∙ drop_acked-none base bitmap s.unacked h
