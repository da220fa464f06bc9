-- ===== src/Common/Table.antt =====
-- `HashMap` as an association list over keys with a decidable equality, and `BTreeMap` over numbers
-- as one in ascending order of the keys.
use Prim.Native.Nat.{ℕ, ◌<◌}
use mathlib.Core.List.{List, [], ◌∷◌}
use mathlib.Core.Logic.{ite, if_pos, if_neg, ◌≢◌}
use mathlib.Core.Option.{Option, none, some}
use mathlib.Core.Path.{◌≡◌, refl, ap₂}
use native.Mathlib.Omega.{arith}
use native.Mathlib.Decide.{ℕ_discrete}
use ppo_se_protocol.Common.Tests.{ltb, ◌==◌, if◌then◌else◌}

module _ {ℓ} {K V : Type ℓ} (dec : Discrete K) where
  unfoldable pub get : K → List (K × V) → Option V
  get k [] = none
  get k ((j, v) ∷ m) = ite (dec j k) (some v) (get k m)

  -- A new key goes to the end; the order of a `HashMap` is not specified.
  unfoldable pub insert : K → V → List (K × V) → List (K × V)
  insert k v [] = (k, v) ∷ []
  insert k v ((j, w) ∷ m) = ite (dec j k) ((j, v) ∷ m) ((j, w) ∷ insert k v m)

  unfoldable pub remove : K → List (K × V) → List (K × V)
  remove k [] = []
  remove k ((j, w) ∷ m) = ite (dec j k) (remove k m) ((j, w) ∷ remove k m)

  pub get-insert_self : (k : K) (v : V) (m : List (K × V)) → get k (insert k v m) ≡ some v
  unfolding get insert
  get-insert_self k v [] = if_pos (dec k k) refl _ _
  get-insert_self k v ((j, w) ∷ m) = ground (arith, get-insert_self k v m)

  pub get-insert_ne : (k j : K) (v : V) (m : List (K × V)) → k ≢ j → get j (insert k v m) ≡ get j m
  unfolding get insert
  get-insert_ne k j v [] h = if_neg (dec k j) h _ _
  get-insert_ne k j v ((i, w) ∷ m) h = ground (arith, get-insert_ne k j v m)

  pub get-remove_self : (k : K) (m : List (K × V)) → get k (remove k m) ≡ none
  unfolding get remove
  get-remove_self k [] = refl
  get-remove_self k ((j, w) ∷ m) = ground (arith, get-remove_self k m)

  pub get-remove_ne : (k j : K) (m : List (K × V)) → k ≢ j → get j (remove k m) ≡ get j m
  unfolding get remove
  get-remove_ne k j [] h = refl
  get-remove_ne k j ((i, w) ∷ m) h = ground (arith, get-remove_ne k j m)

-- Ascending keys.
module _ {V : Type 0} where
  unfoldable pub insert_sorted : ℕ → V → List (ℕ × V) → List (ℕ × V)
  insert_sorted k v [] = (k, v) ∷ []
  insert_sorted k v ((j, w) ∷ m) =
      if ltb k j
      then (k, v) ∷ (j, w) ∷ m
      else if j == k
      then (k, v) ∷ m
      else (j, w) ∷ insert_sorted k v m

  abbrev pub Above : ℕ → List (ℕ × V) → Type 0
  Above k [] = Unit
  Above k ((j, w) ∷ m) = (k < j) × Above k m

  abbrev pub IsAscending : List (ℕ × V) → Type 0
  IsAscending [] = Unit
  IsAscending ((j, w) ∷ m) = Above j m × IsAscending m

  pub get-insert_sorted_self :
      (k : ℕ) (v : V) (m : List (ℕ × V)) → get ℕ_discrete k (insert_sorted k v m) ≡ some v
  unfolding get insert_sorted
  get-insert_sorted_self k v [] = ground arith
  get-insert_sorted_self k v ((j, w) ∷ m) = ground (arith, get-insert_sorted_self k v m)

  pub get-insert_sorted_ne :
      (k j : ℕ) (v : V) (m : List (ℕ × V))
      → k ≢ j
      → get ℕ_discrete j (insert_sorted k v m) ≡ get ℕ_discrete j m
  unfolding get insert_sorted
  get-insert_sorted_ne k j v [] h = ground arith
  get-insert_sorted_ne k j v ((i, w) ∷ m) h = ground (arith, get-insert_sorted_ne k j v m)

  Above-trans : (j k : ℕ) (m : List (ℕ × V)) → j < k → Above k m → Above j m
  Above-trans j k [] h a = tt
  Above-trans j k ((i, w) ∷ m) h a = (omega (arith, a.0), Above-trans j k m h a.1)

  Above-insert_sorted :
      (j k : ℕ) (v : V) (m : List (ℕ × V)) → j < k → Above j m → Above j (insert_sorted k v m)
  unfolding insert_sorted
  Above-insert_sorted j k v [] h a = (h, tt)
  Above-insert_sorted j k v ((i, w) ∷ m) h a = ground (arith, Above-insert_sorted j k v m)

  pub insert_sorted-IsAscending :
      (k : ℕ) (v : V) (m : List (ℕ × V)) → IsAscending m → IsAscending (insert_sorted k v m)
  unfolding insert_sorted
  insert_sorted-IsAscending k v [] a = (tt, tt)
  insert_sorted-IsAscending k v ((j, w) ∷ m) a =
      ground
        (arith, Above-trans k j m, Above-insert_sorted j k v m, insert_sorted-IsAscending k v m)

-- Byte strings are compared byte by byte.
cons_dec : {x y : ℕ} {xs ys : List ℕ} → Dec (x ≡ y) → Dec (xs ≡ ys) → Dec ((x ∷ xs) ≡ (y ∷ ys))
cons_dec (yes p) (yes q) = yes (ap₂ ◌∷◌ p q)
cons_dec (no p) q = no (λ e. p (cc))
cons_dec (yes p) (no q) = no (λ e. q (cc))

unfoldable pub bytes_discrete : Discrete (List ℕ)
unfolding cons_dec ℕ_discrete
bytes_discrete [] [] = yes refl
bytes_discrete [] (y ∷ ys) = no (λ e. cc)
bytes_discrete (x ∷ xs) [] = no (λ e. cc)
bytes_discrete (x ∷ xs) (y ∷ ys) = cons_dec (ℕ_discrete x y) (bytes_discrete xs ys)
