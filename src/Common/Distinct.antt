-- ===== src/Common/Distinct.antt =====
-- Hash maps without repeated keys: sizes and look-ups.
use Prim.Native.Nat.{suc, ◌≤◌, ◌<◌}
use mathlib.Core.List.{List, [], ◌∷◌}
use mathlib.Core.Logic.{if_pos, if_neg}
use mathlib.Core.Option.{none, some}
use mathlib.Core.Path.{◌≡◌, refl, subst, sym, ◌∙◌}
use native.Mathlib.Omega.{arith}
use ppo_se_protocol.Common.Lists.{length, All}
use ppo_se_protocol.Common.Table.{get, insert, remove, get-insert_ne, get-remove_ne}

module _ {ℓ} {K V : Type ℓ} (dec : Discrete K) where
  abbrev pub IsDistinct : List (K × V) → Type ℓ
  IsDistinct [] = Unit
  IsDistinct ((k, v) ∷ m) = (get dec k m ≡ none) × IsDistinct m

  pub remove-IsDistinct : (k : K) (m : List (K × V)) → IsDistinct m → IsDistinct (remove dec k m)
  unfolding remove get
  remove-IsDistinct k [] h = tt
  remove-IsDistinct k ((j, w) ∷ m) h =
      ground (arith, remove-IsDistinct k m h.1, get-remove_ne dec k j m)

  pub insert-IsDistinct :
      (k : K) (v : V) (m : List (K × V)) → IsDistinct m → IsDistinct (insert dec k v m)
  unfolding insert get
  insert-IsDistinct k v [] h = (refl, tt)
  insert-IsDistinct k v ((j, w) ∷ m) h =
      ground (arith, insert-IsDistinct k v m h.1, get-insert_ne dec k j v m)

  pub length-insert-le :
      (k : K) (v : V) (m : List (K × V)) → length (insert dec k v m) ≤ suc (length m)
  unfolding insert
  length-insert-le k v [] = omega arith
  length-insert-le k v ((j, w) ∷ m) = ground (arith, length-insert-le k v m)

  pub length-insert_known :
      (k : K) (v w : V) (m : List (K × V))
      → get dec k m ≡ some w
      → length (insert dec k v m) ≡ length m
  unfolding get insert
  length-insert_known k v w [] h = absurd (cc)
  length-insert_known k v w ((j, u) ∷ m) h = ground (arith, length-insert_known k v w m)

  pub length-remove-le : (k : K) (m : List (K × V)) → length (remove dec k m) ≤ length m
  unfolding remove
  length-remove-le k [] = omega arith
  length-remove-le k ((j, w) ∷ m) = ground (arith, length-remove-le k m)

  pub length-remove_lt :
      (k : K) (v : V) (m : List (K × V)) → get dec k m ≡ some v → length (remove dec k m) < length m
  unfolding remove get
  length-remove_lt k v [] h = absurd (cc)
  length-remove_lt k v ((j, w) ∷ m) h = ground (arith, length-remove-le k m, length-remove_lt k v m)

  some-inj : {x y : V} → some x ≡ some y → x ≡ y
  some-inj h = cc h

  -- What holds of all entries holds of the one found, and after an insertion.
  pub All-get {κ} :
      (P : K × V → Type κ) (k : K) (v : V) (m : List (K × V))
      → All P m
      → get dec k m ≡ some v
      → P (k, v)
  unfolding get
  All-get P k v [] a h = absurd (cc h)
  All-get P k v ((j, w) ∷ m) a h = elim (dec j k) [
    | yes e ↦
        let same : w ≡ v = some-inj (sym (if_pos (dec j k) e (some w) (get dec k m)) ∙ h) in
        subst (λ x. P (k, x)) same (subst (λ i. P (i, w)) e a.0)
    | no ne ↦ All-get P k v m a.1 (sym (if_neg (dec j k) ne (some w) (get dec k m)) ∙ h)
  ]

  pub All-insert {κ} :
      (P : K × V → Type κ) (k : K) (v : V) (m : List (K × V))
      → P (k, v)
      → All P m
      → All P (insert dec k v m)
  unfolding insert
  All-insert P k v [] p a = (p, tt)
  All-insert P k v ((j, w) ∷ m) p a = elim (dec j k) [
    | yes e ↦
        subst (All P) (sym (if_pos (dec j k) e ((j, v) ∷ m) ((j, w) ∷ insert dec k v m)))
          (subst (λ i. P (i, v)) (sym e) p, a.1)
    | no ne ↦
        subst (All P) (sym (if_neg (dec j k) ne ((j, v) ∷ m) ((j, w) ∷ insert dec k v m)))
          (a.0, All-insert P k v m p a.1)
  ]
