-- ===== src/Arq/Send/Retransmit.antt =====
-- Retransmission: which frames are sent again, and when the sender gives up.
use ppo_se_protocol.Common.{
  ℕ, ◌+◌, ◌-◌, ◌≡◌, refl, Bool, true, false, not, Option, none, some, List, [], ◌∷◌, ok, err, map,
  ltb, leb, if◌then◌else◌, arith,
}
use ppo_se_protocol.Arq.{Arq, Outgoing, ArqGiveUp}
use ppo_se_protocol.Arq.Send.{retransmits, take_retransmits}

-- Sent, and not within the last `retx` milliseconds.
abbrev pub is_due : ℕ → ℕ → Outgoing → Bool
is_due now retx o = elim o.last_sent [ none ↦ false | some last ↦ not (ltb (now - last) retx) ]

abbrev pub resent : ℕ → ℕ → Outgoing → Outgoing
resent now retx o =
    if is_due now retx o then record o { attempts = o.attempts + 1; last_sent = some now } else o

abbrev pub resend_all : ℕ → ℕ → List (ℕ × Outgoing) → List (ℕ × Outgoing)
resend_all now retx = map (λ e. (e.0, resent now retx e.1))

abbrev pub due_frames : ℕ → ℕ → List (ℕ × Outgoing) → List (List ℕ)
due_frames now retx [] = []
due_frames now retx ((_, o) ∷ m) =
    if is_due now retx o then o.plaintext ∷ due_frames now retx m else due_frames now retx m

-- The first frame in key order that is due and has used up its attempts.
abbrev pub exhausted : ℕ → ℕ → ℕ → List (ℕ × Outgoing) → Option ArqGiveUp
exhausted now retx limit [] = none
exhausted now retx limit ((seq, o) ∷ m) = elim (is_due now retx o) [
  | true ↦ elim (leb limit o.attempts) [
    | true ↦ some (record { seq = seq; attempts = o.attempts })
    | false ↦ exhausted now retx limit m
  ]
  | false ↦ exhausted now retx limit m
]

module _ (now retx limit : ℕ) where
  retransmits_ok :
      (m : List (ℕ × Outgoing))
      → exhausted now retx limit m ≡ none
      → retransmits now retx limit m ≡ (resend_all now retx m, ok (due_frames now retx m))
  unfolding retransmits
  retransmits_ok [] h = refl
  retransmits_ok ((k, o) ∷ m) h = ground (arith, retransmits_ok m)

  retransmits_give_up :
      (m : List (ℕ × Outgoing)) (g : ArqGiveUp)
      → exhausted now retx limit m ≡ some g
      → (retransmits now retx limit m).1 ≡ err g
  unfolding retransmits
  retransmits_give_up [] g h = absurd (cc)
  retransmits_give_up ((k, o) ∷ m) g h = ground (arith, retransmits_give_up m g)

-- With no due frame at its limit, exactly the due frames are sent again, in key order; each counts
-- one attempt more and restarts its clock, and no other frame changes.
pub take_retransmits_ok :
    (now : ℕ) (s : Arq)
    → exhausted now s.retx s.max_attempts s.unacked ≡ none
    → take_retransmits now s ≡ (
      record s { unacked = resend_all now s.retx s.unacked },
      ok (due_frames now s.retx s.unacked),
    )
unfolding take_retransmits
take_retransmits_ok now s h = ground (arith, retransmits_ok now s.retx s.max_attempts s.unacked h)

-- If a due frame is at its limit, `take_retransmits` gives up on the first one of these in key order,
-- with its number and its attempts.
pub take_retransmits_give_up :
    (now : ℕ) (s : Arq) (g : ArqGiveUp)
    → exhausted now s.retx s.max_attempts s.unacked ≡ some g
    → (take_retransmits now s).1 ≡ err g
unfolding take_retransmits
take_retransmits_give_up now s g h = retransmits_give_up now s.retx s.max_attempts s.unacked g h
