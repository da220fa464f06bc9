-- ===== src/Arq/Receive/Reassembly.antt =====
-- Reassembly of one message whose fragments arrive in any order and any number of times.
pub mod Parts
pub mod Buffer
pub mod Deliver
use ppo_se_protocol.Common.{
  ℕ, ◌+◌, ◌%◌, ◌^◌, ◌<◌, List, [], ◌∷◌, ◌++◌, Bool, true, false, ◌||◌, ◌==◌, length, get_or,
}
use ppo_se_protocol.Arq.{Arq}
use ppo_se_protocol.Arq.Receive.{on_data}

abbrev pub contains : List ℕ → ℕ → Bool
contains [] j = false
contains (i ∷ is) j = (j == i) || contains is j

-- `f` holds from `k` on, for as many numbers as the list is long.
abbrev pub all_from {ℓ} : {A : Type ℓ} → (ℕ → Bool) → ℕ → List A → Bool
all_from f k [] = true
all_from f k (c ∷ cs) = elim (f k) [ true ↦ all_from f (k + 1) cs | false ↦ false ]

-- `f`, and number `i` too.
abbrev pub add : (ℕ → Bool) → ℕ → ℕ → Bool
add f i j = (j == i) || f j

abbrev pub concat : List (List ℕ) → List ℕ
concat [] = []
concat (c ∷ cs) = c ++ concat cs
