-- ===== src/Common/Bytes.antt =====
-- Bytes are numbers below 256; `to_be_bytes` and `from_be_bytes` of the unsigned integers.
use Prim.Native.Nat.{ℕ, zero, suc, ◌+◌, ◌*◌, ◌/◌, ◌%◌, ◌^◌, ◌<◌}
use mathlib.Core.Path.{◌≡◌, refl, ap}
use mathlib.Core.List.{List, [], ◌∷◌}
use native.Mathlib.Omega.{arith}
use ppo_se_protocol.Common.Lists.{length, All}

abbrev pub IsByte : ℕ → Type 0
IsByte b = b < 256

abbrev pub IsBytes : List ℕ → Type 0
IsBytes = All IsByte

-- The `n` bytes of `v`, highest first.
abbrev pub to_be_bytes : ℕ → ℕ → List ℕ
to_be_bytes zero v = []
to_be_bytes (suc n) v = (v / 256 ^ n % 256) ∷ to_be_bytes n v

abbrev pub from_be_bytes : List ℕ → ℕ
from_be_bytes [] = 0
from_be_bytes (b ∷ bs) = b * 256 ^ length bs + from_be_bytes bs

pub length-to_be_bytes : (n v : ℕ) → length (to_be_bytes n v) ≡ n
length-to_be_bytes zero v = refl
length-to_be_bytes (suc n) v = ap suc (length-to_be_bytes n v)

pub to_be_bytes-IsBytes : (n v : ℕ) → IsBytes (to_be_bytes n v)
to_be_bytes-IsBytes zero v = tt
to_be_bytes-IsBytes (suc n) v = (omega arith, to_be_bytes-IsBytes n v)

-- The integer types of the wire read back what they wrote.
pub from_be_bytes-u16 : (v : ℕ) → v < 2 ^ 16 → from_be_bytes (to_be_bytes 2 v) ≡ v
from_be_bytes-u16 v h = omega arith

pub from_be_bytes-u32 : (v : ℕ) → v < 2 ^ 32 → from_be_bytes (to_be_bytes 4 v) ≡ v
from_be_bytes-u32 v h = omega arith

pub from_be_bytes-u64 : (v : ℕ) → v < 2 ^ 64 → from_be_bytes (to_be_bytes 8 v) ≡ v
from_be_bytes-u64 v h = omega arith

pub to_be_bytes-u16 :
    (a b : ℕ) → IsByte a → IsByte b → to_be_bytes 2 (from_be_bytes (a ∷ b ∷ [])) ≡ a ∷ b ∷ []
to_be_bytes-u16 a b ha hb = ground arith

pub to_be_bytes-u32 :
    (a b c d : ℕ)
    → IsBytes (a ∷ b ∷ c ∷ d ∷ [])
    → to_be_bytes 4 (from_be_bytes (a ∷ b ∷ c ∷ d ∷ [])) ≡ a ∷ b ∷ c ∷ d ∷ []
to_be_bytes-u32 a b c d h = ground arith

pub to_be_bytes-u64 :
    (a b c d e f g i : ℕ)
    → IsBytes (a ∷ b ∷ c ∷ d ∷ e ∷ f ∷ g ∷ i ∷ [])
    → to_be_bytes 8 (from_be_bytes (a ∷ b ∷ c ∷ d ∷ e ∷ f ∷ g ∷ i ∷ []))
      ≡ a ∷ b ∷ c ∷ d ∷ e ∷ f ∷ g ∷ i ∷ []
to_be_bytes-u64 a b c d e f g i h = ground arith
