-- ===== src/Session/Carries.antt =====
-- Datagrams that carry given frames.
use ppo_se_protocol.Common.{ℕ, suc, ◌+◌, ◌≡◌, subst, List, [], ◌∷◌, ◌++◌, arith, length}
use ppo_se_protocol.Wire.{SocketAddr}
use ppo_se_protocol.Noise.{Snow}
use ppo_se_protocol.Noise.Ordered.{IsOrdered}
use ppo_se_protocol.Session.Direct.{data_datagram}

module _ {snow : Snow} (laws : IsOrdered snow) (key : laws.Key) where
  -- Datagrams for `hop` that carry the texts under the key, in order, with the numbers from `number`
  -- on.
  abbrev pub Carries : SocketAddr → ℕ → List (List ℕ) → List (List ℕ × SocketAddr) → Type 0
  Carries hop number [] [] = Unit {0}
  Carries hop number [] (d ∷ ds) = ⊥
  Carries hop number (text ∷ texts) [] = ⊥
  Carries hop number (text ∷ texts) (d ∷ ds) =
      ((message : List ℕ) × (d ≡ (data_datagram message, hop))
        × laws.Sealed key number text message
        × (length message ≡ 16 + length text))
      × Carries hop (suc number) texts ds

  pub Carries-append :
      (hop : SocketAddr) (number : ℕ) (texts more : List (List ℕ))
      (ds es : List (List ℕ × SocketAddr))
      → Carries hop number texts ds
      → Carries hop (number + length texts) more es
      → Carries hop number (texts ++ more) (ds ++ es)
  Carries-append hop number [] more [] es c e = subst (λ n. Carries hop n more es) (omega arith) e
  Carries-append hop number [] more (d ∷ ds) es c e = absurd c
  Carries-append hop number (text ∷ texts) more [] es c e = absurd c
  Carries-append hop number (text ∷ texts) more (d ∷ ds) es (first, c) e = (
    first,
    Carries-append hop (suc number) texts more ds es c
        (subst (λ n. Carries hop n more es) (omega arith) e),
  )
