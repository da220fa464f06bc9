-- ===== src/Arq/Receive/Reassembly/Parts.antt =====
-- The buffer of a message as the list of the fragments that have arrived.
use ppo_se_protocol.Common.{
  ℕ, zero, suc, ◌+◌, ◌<◌, ◌≡◌, refl, ap, ◌∙◌, List, [], ◌∷◌, Bool, true, false, ◌||◌, ◌==◌,
  if◌then◌else◌, length, get_or, set, replicate, Option, none, some, arith, ℕ_discrete,
}
use ppo_se_protocol.Arq.Receive.{all_some, join_parts}
use ppo_se_protocol.Arq.Receive.Reassembly.{all_from, add, concat}

-- The parts from index `k` on, where fragment `i` has arrived exactly if `f i`.
unfoldable pub arrived : (ℕ → Bool) → ℕ → List (List ℕ) → List (Option (List ℕ))
arrived f k [] = []
arrived f k (c ∷ cs) = (if f k then some c else none) ∷ arrived f (k + 1) cs

pub length-arrived :
    (f : ℕ → Bool) (k : ℕ) (cs : List (List ℕ)) → length (arrived f k cs) ≡ length cs
unfolding arrived
length-arrived f k [] = refl
length-arrived f k (c ∷ cs) = ap suc (length-arrived f (k + 1) cs)

pub arrived-none :
    (f : ℕ → Bool) (k : ℕ) (cs : List (List ℕ))
    → ((i : ℕ) → i < length cs → f (k + i) ≡ false)
    → arrived f k cs ≡ replicate (length cs) none
unfolding arrived
arrived-none f k [] h = refl
arrived-none f k (c ∷ cs) h = ground (
  arith,
  ap f {x = k + 0} {y = k} (omega arith),
  h 0,
  arrived-none f (k + 1) cs
      (λ i p. ap f {x = k + 1 + i} {y = k + suc i} (omega arith) ∙ h (suc i) (omega arith)),
)

-- Above index `i` nothing changes where `i` is added.
arrived-add_below :
    (f : ℕ → Bool) (i k : ℕ) (cs : List (List ℕ))
    → i < k
    → arrived (λ j. (j == i) || f j) k cs ≡ arrived f k cs
unfolding arrived
arrived-add_below f i k [] h = refl
arrived-add_below f i k (c ∷ cs) h = ground (arith, arrived-add_below f i (k + 1) cs)

pub set-arrived :
    (f : ℕ → Bool) (p k i : ℕ) (cs : List (List ℕ))
    → p ≡ k + i
    → i < length cs
    → set (arrived f k cs) i (some (get_or cs i [])) ≡ arrived (λ j. (j == p) || f j) k cs
unfolding arrived
set-arrived f p k i [] e h = absurd (omega arith)
set-arrived f p k zero (c ∷ cs) e h = ground (arith, arrived-add_below f p (k + 1) cs)
set-arrived f p k (suc i) (c ∷ cs) e h =
    ground (arith, set-arrived f p (k + 1) i cs (omega arith) (omega arith))

pub all_some-arrived :
    (f : ℕ → Bool) (k : ℕ) (cs : List (List ℕ)) → all_some (arrived f k cs) ≡ all_from f k cs
unfolding arrived
all_some-arrived f k [] = refl
all_some-arrived f k (c ∷ cs) = ground (arith, all_some-arrived f (k + 1) cs)

pub join_parts-arrived :
    (f : ℕ → Bool) (k : ℕ) (cs : List (List ℕ))
    → all_from f k cs ≡ true
    → join_parts (arrived f k cs) ≡ concat cs
unfolding arrived
join_parts-arrived f k [] h = refl
join_parts-arrived f k (c ∷ cs) h = ground (arith, join_parts-arrived f (k + 1) cs)

-- A missing fragment keeps the message incomplete.
pub all_from-false :
    (f : ℕ → Bool) (p k i : ℕ) (cs : List (List ℕ))
    → p ≡ k + i
    → i < length cs
    → f p ≡ false
    → all_from f k cs ≡ false
all_from-false f p k i [] eq h e = absurd (omega arith)
all_from-false f p k zero (c ∷ cs) eq h e =
    let here : k ≡ p = omega arith in ground (arith, ap f here)
all_from-false f p k (suc i) (c ∷ cs) eq h e =
    ground (arith, all_from-false f p (k + 1) i cs (omega arith) (omega arith) e)

pub add_again : (f : ℕ → Bool) (i j : ℕ) → f i ≡ true → f j ≡ add f i j
add_again f i j h = elim (ℕ_discrete j i) [ yes e ↦ ground (arith, ap f e) | no ne ↦ ground arith ]
