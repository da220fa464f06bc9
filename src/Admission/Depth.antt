-- ===== src/Admission/Depth.antt =====
-- The breadth-first search of `trust_depth` against the chains of invitations.
pub mod Scanned
pub mod Shortest
use ppo_se_protocol.Common.{ℕ, zero, suc, ◌≡◌, ◌⊎◌, true, List, [], ◌∷◌, ok}
use ppo_se_protocol.Common.Table.{get, bytes_discrete}
use ppo_se_protocol.Admission.{
  Signatures, Invitation, TrustStore, subjects_or_default, contains_key, verify,
}

abbrev pub In : List (List ℕ) → List ℕ → Type 0
In xs x = contains_key xs x ≡ true

abbrev pub Among : List ℕ × Invitation → List (List ℕ × Invitation) → Type 0
Among e [] = ⊥
Among e (x ∷ xs) = (x ≡ e) ⊎ Among e xs

module _ (sigs : Signatures) (now : ℕ) where
  -- One of the invitations is valid now and for this subject.
  abbrev pub Names : List (List ℕ × Invitation) → List ℕ → Type 0
  Names m x =
      (e : List ℕ × Invitation) × Among e m × (verify sigs e.1 now ≡ ok tt) × (e.1.subject ≡ x)

  -- The store holds an invitation from `issuer` to `x` that is valid now.
  abbrev pub Vouches : TrustStore → List ℕ → List ℕ → Type 0
  Vouches s issuer x = Names (subjects_or_default (get bytes_discrete issuer s.edges)) x

  -- A chain of `n` valid invitations leads from a root to `x`.
  abbrev pub Reaches : TrustStore → ℕ → List ℕ → Type 0
  Reaches s zero x = In s.roots x
  Reaches s (suc n) x = (issuer : List ℕ) × Reaches s n issuer × Vouches s issuer x
