-- ===== src/Common/Bits.antt =====
-- `&`, `|`, `<<` and `>>` of the unsigned integers at one bit, as arithmetic.
use Prim.Native.Nat.{ℕ, zero, suc, ◌+◌, ◌*◌, ◌/◌, ◌%◌, ◌^◌, ◌≤◌, ◌<◌, min, max}
use Prim.Native.Nat.{bit_and, bit_or, digits, bitwise, bit_and-bitwise, bit_or-bitwise}
use mathlib.Core.Path.{◌≡◌, refl, ap, ◌∙◌, sym}
use mathlib.Core.Logic.{◌≢◌}
use native.Mathlib.Omega.{arith}
use native.Mathlib.Nat.{pow-suc, div-div-eq-div-mul, le_refl}

-- Bit `k` of `b`: `(b >> k) & 1`.
unfoldable pub bit_at : ℕ → ℕ → ℕ
bit_at b k = b / 2 ^ k % 2

pub two_pow-suc : (k : ℕ) → 2 ^ suc k ≡ 2 * 2 ^ k
two_pow-suc k = omega (arith, pow-suc 2 k)

pub bit_at-zero : (b : ℕ) → bit_at b 0 ≡ b % 2
unfolding bit_at
bit_at-zero b = omega arith

pub bit_at-suc : (b k : ℕ) → bit_at b (suc k) ≡ bit_at (b / 2) k
unfolding bit_at
bit_at-suc b k = rw two_pow-suc (ap (λ (t : ℕ). t % 2) (sym (div-div-eq-div-mul b 2 (2 ^ k))))

pub bit_at-le_one : (b k : ℕ) → bit_at b k ≤ 1
unfolding bit_at
bit_at-le_one b k = omega arith

-- The native operations mean a recursion on digits with fuel; here the fuel is dropped.
module _ (z : ℕ → ℕ) (f : ℕ → ℕ → ℕ) where
  same_digits :
      (a left right b : ℕ) → a ≤ min left right → digits z f left a b ≡ digits z f right a b
  same_digits zero zero zero b h = refl
  same_digits zero zero (suc right) b h = refl
  same_digits zero (suc left) zero b h = refl
  same_digits zero (suc left) (suc right) b h = refl
  same_digits (suc a) (suc left) (suc right) b h =
      ap (λ (t : ℕ). t * 2 + f (suc a % 2) (b % 2))
        (same_digits (suc a / 2) left right (b / 2) (omega arith))
  same_digits (suc a) zero right b h = absurd (omega arith)
  same_digits (suc a) (suc left) zero b h = absurd (omega arith)

  lowest_digit :
      (a b : ℕ)
      → bitwise z f (suc a) b ≡ bitwise z f (suc a / 2) (b / 2) * 2 + f (suc a % 2) (b % 2)
  lowest_digit a b =
      ap (λ (t : ℕ). t * 2 + f (suc a % 2) (b % 2))
        (same_digits (suc a / 2) a (suc a / 2) (b / 2) (omega arith))

bit_or_digit : (a b : ℕ) → bit_or a b ≡ bit_or (a / 2) (b / 2) * 2 + max (a % 2) (b % 2)
bit_or_digit zero b = simp bit_or-bitwise (omega arith)
bit_or_digit (suc a) b = simp bit_or-bitwise (lowest_digit (λ y. y) max a b)

bit_and_digit : (a b : ℕ) → bit_and a b ≡ bit_and (a / 2) (b / 2) * 2 + min (a % 2) (b % 2)
bit_and_digit zero b = simp bit_and-bitwise (omega arith)
bit_and_digit (suc a) b = simp bit_and-bitwise (lowest_digit (λ y. 0) min a b)

bit_and-zero_below : (n a : ℕ) → a ≤ n → bit_and a 0 ≡ 0
bit_and-zero_below zero zero h = refl
bit_and-zero_below zero (suc a) h = absurd (omega arith)
bit_and-zero_below (suc n) zero h = refl
bit_and-zero_below (suc n) (suc a) h =
    omega (arith, bit_and_digit (suc a) 0, bit_and-zero_below n (suc a / 2) (omega arith))

bit_or-zero_below : (n a : ℕ) → a ≤ n → bit_or a 0 ≡ a
bit_or-zero_below zero zero h = refl
bit_or-zero_below zero (suc a) h = absurd (omega arith)
bit_or-zero_below (suc n) zero h = refl
bit_or-zero_below (suc n) (suc a) h =
    omega (arith, bit_or_digit (suc a) 0, bit_or-zero_below n (suc a / 2) (omega arith))

pub bit_and-one : (a : ℕ) → bit_and a 1 ≡ a % 2
bit_and-one a = omega (arith, bit_and_digit a 1, bit_and-zero_below (a / 2) (a / 2) (le_refl _))

-- `b & (1 << k)` is the bit at its place.
pub bit_and-two_pow : (k b : ℕ) → bit_and b (2 ^ k) ≡ bit_at b k * 2 ^ k
bit_and-two_pow zero b = omega (arith, bit_and-one b, bit_at-zero b)
bit_and-two_pow (suc k) b =
    let half : 2 ^ suc k / 2 ≡ 2 ^ k = omega (arith, two_pow-suc k) in
    omega (
      arith,
      two_pow-suc k,
      bit_and_digit b (2 ^ suc k),
      ap (bit_and (b / 2)) half,
      bit_and-two_pow k (b / 2),
      bit_at-suc b k,
      ap (λ (t : ℕ). bit_at b (suc k) * t) (two_pow-suc k),
      ap (λ (t : ℕ). t * 2 ^ k) (bit_at-suc b k),
    )

-- `b | (1 << k)` sets a bit that is clear.
pub bit_or-two_pow : (k b : ℕ) → bit_at b k ≡ 0 → bit_or b (2 ^ k) ≡ b + 2 ^ k
bit_or-two_pow zero b h =
    omega (arith, bit_or_digit b 1, bit_or-zero_below (b / 2) (b / 2) (le_refl _), bit_at-zero b)
bit_or-two_pow (suc k) b h =
    let half : 2 ^ suc k / 2 ≡ 2 ^ k = omega (arith, two_pow-suc k) in
    omega (
      arith,
      two_pow-suc k,
      bit_or_digit b (2 ^ suc k),
      ap (bit_or (b / 2)) half,
      bit_or-two_pow k (b / 2) (sym (bit_at-suc b k) ∙ h),
    )

half-set : (k b : ℕ) → (b + 2 ^ suc k) / 2 ≡ b / 2 + 2 ^ k
half-set k b = omega (arith, two_pow-suc k)

-- What the set bit shows, and that no other bit changes.
pub bit_at-set_self : (k b : ℕ) → bit_at b k ≡ 0 → bit_at (b + 2 ^ k) k ≡ 1
bit_at-set_self zero b h = omega (arith, bit_at-zero b, bit_at-zero (b + 1))
bit_at-set_self (suc k) b h =
    rw (bit_at-suc, half-set) (bit_at-set_self k (b / 2) (sym (bit_at-suc b k) ∙ h))

pub bit_at-set_ne : (k j b : ℕ) → bit_at b k ≡ 0 → j ≢ k → bit_at (b + 2 ^ k) j ≡ bit_at b j
bit_at-set_ne zero zero b h ne = absurd (ne refl)
bit_at-set_ne zero (suc j) b h ne =
    let e : (b + 1) / 2 ≡ b / 2 = omega (arith, bit_at-zero b) in
    bit_at-suc (b + 1) j ∙ ap (λ t. bit_at t j) e ∙ sym (bit_at-suc b j)
bit_at-set_ne (suc k) zero b h ne =
    omega (arith, two_pow-suc k, bit_at-zero b, bit_at-zero (b + 2 ^ suc k))
bit_at-set_ne (suc k) (suc j) b h ne =
    bit_at-suc (b + 2 ^ suc k) j
    ∙ ap (λ t. bit_at t j) (half-set k b)
    ∙ bit_at-set_ne k j (b / 2) (sym (bit_at-suc b k) ∙ h) (λ e. ne (ap suc e))
    ∙ sym (bit_at-suc b j)

-- Setting a bit below the width stays within the width.
pub set_bit-lt : (n k b : ℕ) → b < 2 ^ n → k < n → bit_at b k ≡ 0 → b + 2 ^ k < 2 ^ n
set_bit-lt zero k b hb hk h = absurd (omega arith)
set_bit-lt (suc n) zero b hb hk h = omega (arith, two_pow-suc n, bit_at-zero b)
set_bit-lt (suc n) (suc k) b hb hk h = omega (
  arith,
  two_pow-suc n,
  two_pow-suc k,
  set_bit-lt n k (b / 2) (omega (arith, two_pow-suc n)) (omega arith) (sym (bit_at-suc b k) ∙ h),
)

pub bit_at_beyond : (n k b : ℕ) → b < 2 ^ n → n ≤ k → bit_at b k ≡ 0
bit_at_beyond zero zero b hb hk = omega (arith, bit_at-zero b)
bit_at_beyond zero (suc k) b hb hk =
    bit_at-suc b k ∙ bit_at_beyond zero k (b / 2) (omega arith) (omega arith)
bit_at_beyond (suc n) zero b hb hk = absurd (omega arith)
bit_at_beyond (suc n) (suc k) b hb hk =
    bit_at-suc b k ∙ bit_at_beyond n k (b / 2) (omega (arith, two_pow-suc n)) (omega arith)
