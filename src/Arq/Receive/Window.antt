-- ===== src/Arq/Receive/Window.antt =====
-- The receive window against the set of all numbers received so far. A number of the abstract view
-- is never reduced modulo 2 ^ 32: `b` counts the numbers below the base.
use native.Mathlib.Nat.{one-le-pow}
use ppo_se_protocol.Common.{
  ℕ, zero, suc, ◌+◌, ◌-◌, ◌/◌, ◌%◌, ◌^◌, ◌≤◌, ◌<◌, ◌≡◌, sym, ap, ◌∙◌, Bool, true, false, ◌||◌, ◌⊎◌,
  inl, inr, Option, none, some, arith, ltb, ◌==◌, if◌then◌else◌, bit_and, Bool-cases, dec_lt,
  ℕ_discrete,
}
use ppo_se_protocol.Common.Bits.{
  bit_at, two_pow-suc, bit_at-zero, bit_at-suc, bit_at-le_one, bit_and-one, bit_and-two_pow,
  bit_or-two_pow, bit_at-set_self, bit_at-set_ne, set_bit-lt, bit_at_beyond,
}
use ppo_se_protocol.Arq.{wrapping_sub}
use ppo_se_protocol.Arq.Receive.{advance, mark_ahead, mark_window}

-- Has number `n` been received?
unfoldable pub received : ℕ → ℕ → ℕ → Bool
received b bits n = if ltb n b then true else bit_at bits (n - b) == 1

-- `base` and `bits` are the window whose lowest missing number is `b`.
pub record IsWindow (base bits b : ℕ) : Type 0 where
  pub base_is : base ≡ b % 2 ^ 32
  pub width : bits < 2 ^ 64
  pub missing : bits % 2 ≡ 0

-- The numbers that the loop passes over, `k` of them, and what it leaves.
record Advanced (n base bits : ℕ) (r : ℕ × ℕ) : Type 0 where
  k : ℕ
  base_moves : r.0 ≡ (base + k) % 2 ^ 32
  fits : r.1 < 2 ^ n
  missing : r.1 % 2 ≡ 0
  shifted : (j : ℕ) → bit_at r.1 j ≡ bit_at bits (j + k)
  passed : (i : ℕ) → i < k → bit_at bits i ≡ 1

passed_suc :
    (bits k : ℕ)
    → ((i : ℕ) → i < k → bit_at (bits / 2) i ≡ 1)
    → (bit_and bits 1 == 1) ≡ true
    → (i : ℕ) → i < suc k
    → bit_at bits i ≡ 1
passed_suc bits k h odd zero p = ground (arith, bit_and-one bits, bit_at-zero bits)
passed_suc bits k h odd (suc i) p = bit_at-suc bits i ∙ h i (omega arith)

advance-Advanced :
    (n base bits : ℕ) → base < 2 ^ 32 → bits < 2 ^ n → Advanced n base bits (advance n base bits)
unfolding advance
advance-Advanced zero base bits hb h = record {
  k = 0;
  base_moves = omega arith;
  fits = h;
  missing = omega arith;
  shifted = λ j. ap (bit_at bits) (omega arith);
  passed = λ i p. absurd (omega arith);
}
advance-Advanced (suc n) base bits hb h = elim (Bool-cases (bit_and bits 1 == 1)) [
  | inl odd ↦
      let r =
        advance-Advanced n ((base + 1) % 2 ^ 32) (bits / 2) (omega arith)
          (omega (arith, two_pow-suc n)) in
      rw (odd, advance)
        (record {
          k = suc r.k;
          base_moves = omega (arith, r.base_moves);
          fits = omega (arith, r.fits, two_pow-suc n);
          missing = r.missing;
          shifted =
              λ j. (r.shifted j ∙ sym (bit_at-suc bits (j + r.k)) ∙ ap (bit_at bits) (omega arith));
          passed = λ i p. passed_suc bits r.k r.passed odd i p;
        })
  | inr even ↦
      rw (even, advance)
        (record {
          k = 0;
          base_moves = omega arith;
          fits = h;
          missing = ground (arith, bit_and-one bits);
          shifted = λ j. ap (bit_at bits) (omega arith);
          passed = λ i p. absurd (omega arith);
        })
]

-- Setting the bit of a missing number adds that number and no other.
received-set :
    (b bits n m : ℕ)
    → b ≤ n
    → received b bits n ≡ false
    → received b (bits + 2 ^ (n - b)) m ≡ (m == n || received b bits m)
unfolding received
received-set b bits n m le h = elim (dec_lt m b) [
  | yes below ↦ ground arith
  | no above ↦ ground (
    arith,
    bit_at-le_one bits (n - b),
    bit_at-set_self (n - b) bits,
    bit_at-set_ne (n - b) (m - b) bits,
  )
]

-- Moving the base past received numbers changes nothing.
received-advance :
    (base b bits m : ℕ) {r : ℕ × ℕ} (a : Advanced 64 base bits r)
    → received (b + a.k) r.1 m ≡ received b bits m
unfolding received
received-advance base b bits m a = elim (dec_lt m b) [
  | yes below ↦ ground arith
  | no above ↦ elim (dec_lt m (b + a.k)) [
    | yes within ↦ ground (arith, a.passed (m - b))
    | no beyond ↦
        let e : m - (b + a.k) + a.k ≡ m - b = omega arith in
        ground (arith, a.shifted (m - (b + a.k)), ap (bit_at bits) e)
  ]
]

-- Number `n` is new: it joins the received numbers, and the base moves to the lowest missing one.
pub record Accepted (bits b n : ℕ) (r : Option (ℕ × ℕ)) : Type 0 where
  pub base' : ℕ
  pub bits' : ℕ
  pub b' : ℕ
  pub result : r ≡ some (base', bits')
  pub window : IsWindow base' bits' b'
  pub forward : b ≤ b'
  pub inside : n < b + 64
  pub is_new : received b bits n ≡ false
  pub update : (m : ℕ) → received b' bits' m ≡ (m == n || received b bits m)

-- Number `n` is refused: it was received before, or lies 64 or more above the base.
abbrev pub Refused : ℕ → ℕ → ℕ → Option (ℕ × ℕ) → Type 0
Refused bits b n r = (r ≡ none) × ((received b bits n ≡ true) ⊎ (b + 64 ≤ n))

module _ (base bits b n : ℕ) (w : IsWindow base bits b) where
  ahead_is : b ≤ n → n < b + 2 ^ 32 → wrapping_sub (n % 2 ^ 32) base ≡ n - b
  ahead_is le lt = rw w.base_is (omega arith)

  behind_is : n < b → b + 64 ≤ n + 2 ^ 32 → 64 ≤ wrapping_sub (n % 2 ^ 32) base
  behind_is lt near = rw w.base_is (omega arith)

  mark_at : b ≤ n → n < b + 64 → mark_window base bits (n % 2 ^ 32) ≡ mark_ahead base bits (n - b)
  unfolding mark_window
  mark_at le lt = ap (mark_ahead base bits) (ahead_is le (omega arith))

  mark_set :
      b ≤ n → n < b + 64 → bit_at bits (n - b) ≡ 1 → mark_window base bits (n % 2 ^ 32) ≡ none
  unfolding mark_ahead
  mark_set le lt set =
      rw (mark_at le lt) (ground (arith, bit_and-two_pow (n - b) bits, one-le-pow (n - b) 2))

  mark_clear :
      b ≤ n
      → n < b + 64
      → bit_at bits (n - b) ≡ 0
      → mark_window base bits (n % 2 ^ 32) ≡ some (advance 64 base (bits + 2 ^ (n - b)))
  unfolding mark_ahead
  mark_clear le lt clear =
      rw (mark_at le lt)
        (ground (arith, bit_or-two_pow (n - b) bits clear, bit_and-two_pow (n - b) bits))

  mark_new :
      b ≤ n
      → n < b + 64
      → bit_at bits (n - b) ≡ 0
      → Accepted bits b n (mark_window base bits (n % 2 ^ 32))
  mark_new le lt clear =
      let bits2 = bits + 2 ^ (n - b) in
      let fits = set_bit-lt 64 (n - b) bits w.width (omega arith) clear in
      let a = advance-Advanced 64 base bits2 (omega (arith, w.base_is)) fits in
      let r = advance 64 base bits2 in
      let is_new : received b bits n ≡ false = unfold received in ground arith in
      record {
        base' = r.0;
        bits' = r.1;
        b' = b + a.k;
        result = mark_clear le lt clear;
        window = record {
          base_is = omega (arith, a.base_moves, w.base_is);
          width = a.fits;
          missing = a.missing;
        };
        forward = omega arith;
        inside = lt;
        is_new = is_new;
        update = λ m. received-advance base b bits2 m a ∙ received-set b bits n m le is_new;
      }

  -- On a window with base `b`, a number less than 2 ^ 32 above `b` and at most 2 ^ 32 - 64 below
  -- it is accepted exactly if it is new and within the 64 numbers from `b` on; then it joins the
  -- received numbers, and the base moves to the lowest missing one.
  pub mark_window_lem :
      n < b + 2 ^ 32
      → b + 64 ≤ n + 2 ^ 32
      → Refused bits b n (mark_window base bits (n % 2 ^ 32))
        ⊎ Accepted bits b n (mark_window base bits (n % 2 ^ 32))
  unfolding mark_window received
  mark_window_lem lt near = elim (dec_lt n b) [
    | yes old ↦ inl (ground (arith, behind_is old near), inl (ground arith))
    | no le ↦ elim (dec_lt n (b + 64)) [
      | no far ↦ inl (ground (arith, ahead_is (omega arith) lt), inr (omega arith))
      | yes inside ↦ elim (ℕ_discrete (bit_at bits (n - b)) 0) [
        | yes clear ↦ inr (mark_new (omega arith) inside clear)
        | no set ↦ inl (
          mark_set (omega arith) inside (omega (arith, bit_at-le_one bits (n - b))),
          inl (ground (arith, bit_at-le_one bits (n - b))),
        )
      ]
    ]
  ]

-- Nothing is received 64 or more above the base.
pub received-above :
    (base bits b m : ℕ) → IsWindow base bits b → b + 64 ≤ m → received b bits m ≡ false
unfolding received
received-above base bits b m w h = ground (arith, bit_at_beyond 64 (m - b) bits w.width)
