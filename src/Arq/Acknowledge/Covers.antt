-- ===== src/Arq/Acknowledge/Covers.antt =====
-- An ACK covers exactly what its sender has received.
use ppo_se_protocol.Common.{
  ℕ, ◌+◌, ◌-◌, ◌/◌, ◌%◌, ◌^◌, ◌≤◌, ◌<◌, ◌≡◌, refl, ap, ap₂, ◌∙◌, Bool, true, false, none, List, [],
  ◌∷◌, arith, ◌==◌, if◌then◌else◌, dec_lt, ℕ_discrete,
}
use ppo_se_protocol.Common.Bits.{bit_at, bit_and-one, bit_at_beyond}
use ppo_se_protocol.Common.Table.{get}
use ppo_se_protocol.Arq.{Arq, Outgoing, wrapping_sub}
use ppo_se_protocol.Arq.Receive.Window.{IsWindow, received}
use ppo_se_protocol.Arq.Acknowledge.{acked_by, acked, drop_acked, on_ack}

module _ (base bits b n : ℕ) (w : IsWindow base bits b) where
  ahead_behind :
      (a d : ℕ)
      → wrapping_sub (n % 2 ^ 32) base ≡ a
      → wrapping_sub base (n % 2 ^ 32) ≡ d
      → acked base bits (n % 2 ^ 32) ≡ acked_by bits a d
  unfolding acked
  ahead_behind a d p q = ap₂ (acked_by bits) p q

  acked-below : n < b → b < n + 1_000_000 → acked base bits (n % 2 ^ 32) ≡ true
  acked-below lt near =
      ahead_behind (2 ^ 32 + n - b) (b - n) (rw w.base_is (omega arith))
        (rw w.base_is (omega arith))
      ∙ (unfold acked_by in ground arith)

  acked-inside : b ≤ n → n < b + 64 → acked base bits (n % 2 ^ 32) ≡ (bit_at bits (n - b) == 1)
  acked-inside le lt =
      ahead_behind (n - b) (wrapping_sub base (n % 2 ^ 32)) (rw w.base_is (omega arith)) refl
      ∙ (unfold acked_by bit_at in ground (arith, bit_and-one (bits / 2 ^ (n - b))))

  acked-beyond : b + 64 ≤ n → n + 1_000_000 ≤ b + 2 ^ 32 → acked base bits (n % 2 ^ 32) ≡ false
  acked-beyond far near =
      ahead_behind (n - b) (2 ^ 32 + b - n) (rw w.base_is (omega arith))
        (rw w.base_is (omega arith))
      ∙ (unfold acked_by in ground arith)

  -- Within a million numbers of the base, the ACK that a receiver sends covers a number exactly if
  -- the receiver has received it.
  pub acked-eq-received :
      b < n + 1_000_000
      → n + 1_000_000 ≤ b + 2 ^ 32
      → acked base bits (n % 2 ^ 32) ≡ received b bits n
  unfolding received
  acked-eq-received lo hi = elim (dec_lt n b) [
    | yes old ↦ rw (acked-below old lo) (ground arith)
    | no le ↦ elim (dec_lt n (b + 64)) [
      | yes inside ↦ rw (acked-inside (omega arith) inside) (ground arith)
      | no far ↦
          rw (acked-beyond (omega arith) hi) (ground (arith, bit_at_beyond 64 (n - b) bits w.width))
    ]
  ]

get-drop_acked :
    (base bits seq : ℕ) (m : List (ℕ × Outgoing))
    → get ℕ_discrete seq (drop_acked base bits m)
      ≡ (if acked base bits seq then none else get ℕ_discrete seq m)
unfolding drop_acked get
get-drop_acked base bits seq [] = ground arith
get-drop_acked base bits seq ((k, slot) ∷ m) =
    ground (arith, get-drop_acked base bits seq m, ap (acked base bits) {x = k} {y = seq})

-- For a number that is less than a million below the base of the ACK, and at most 2 ^ 32 less a
-- million above it: after an ACK the sender holds a number exactly as before if the receiver
-- lacks it, and no longer if the receiver has it.
pub on_ack_lem :
    (s : Arq) (base bits b n : ℕ)
    → IsWindow base bits b
    → b < n + 1_000_000
    → n + 1_000_000 ≤ b + 2 ^ 32
    → get ℕ_discrete (n % 2 ^ 32) (on_ack base bits s).unacked
      ≡ (if received b bits n then none else get ℕ_discrete (n % 2 ^ 32) s.unacked)
unfolding on_ack
on_ack_lem s base bits b n w lo hi =
    get-drop_acked base bits (n % 2 ^ 32) s.unacked
    ∙ ap (λ (t : Bool). if t then none else get ℕ_discrete (n % 2 ^ 32) s.unacked)
        (acked-eq-received base bits b n w lo hi)
