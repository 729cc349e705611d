-- ===== src/Peer/Mask.antt =====
-- The set of blocks that `blocks_received` of a peer stands for.
use bite_bit_bitten.Common.{
  ℕ, zero, suc, ◌-◌, ◌/◌, ◌%◌, ◌^◌, ◌≤◌, ◌<◌, max, bit_or, ◌≡◌, refl, ap, ◌∙◌, ◌≢◌, arith,
}
use native.Mathlib.Nat.{pow-suc, one-le-pow}
use bite_bit_bitten.Common.Bits.{bit_or_step}

-- the binary digit of a number at a place
abbrev pub bit : ℕ → ℕ → ℕ
bit x zero = x % 2
bit x (suc k) = bit (x / 2) k

pub bit-le : (k x : ℕ) → bit x k ≤ 1
bit-le zero x = omega arith
bit-le (suc k) x = bit-le k (x / 2)

pub bit-bit_or : (k x y : ℕ) → bit (bit_or x y) k ≡ max (bit x k) (bit y k)
bit-bit_or zero x y = omega (arith, bit_or_step x y)
bit-bit_or (suc k) x y =
    let half : bit_or x y / 2 ≡ bit_or (x / 2) (y / 2) = omega (arith, bit_or_step x y) in
    ap (λ t. bit t k) half ∙ bit-bit_or k (x / 2) (y / 2)

pub bit-nothing : (k : ℕ) → bit 0 k ≡ 0
bit-nothing zero = refl
bit-nothing (suc k) = bit-nothing k

half_pow : (k : ℕ) → 2 ^ suc k / 2 ≡ 2 ^ k
half_pow k = omega (arith, pow-suc 2 k)

pub bit-pow_self : (k : ℕ) → bit (2 ^ k) k ≡ 1
bit-pow_self zero = refl
bit-pow_self (suc k) = ap (λ t. bit t k) (half_pow k) ∙ bit-pow_self k

pub bit-pow_ne : (k j : ℕ) → j ≢ k → bit (2 ^ k) j ≡ 0
bit-pow_ne zero zero h = absurd (h refl)
bit-pow_ne zero (suc j) h = bit-nothing j
bit-pow_ne (suc k) zero h = omega (arith, pow-suc 2 k)
bit-pow_ne (suc k) (suc j) h = ap (λ t. bit t j) (half_pow k) ∙ bit-pow_ne k j (λ e. h (ap suc e))

-- The number of `t` ones has them at every place.
pub bit-full : (t k : ℕ) → k < t → bit (2 ^ t - 1) k ≡ 1
bit-full zero k h = absurd (omega arith)
bit-full (suc t) zero h = omega (arith, pow-suc 2 t, one-le-pow t 2 (omega arith))
bit-full (suc t) (suc k) h =
    let half : (2 ^ suc t - 1) / 2 ≡ 2 ^ t - 1 =
      omega (arith, pow-suc 2 t, one-le-pow t 2 (omega arith)) in
    ap (λ u. bit u k) half ∙ bit-full t k (omega arith)

-- It is the only one of `t` digits.
pub full-bit : (t x : ℕ) → x < 2 ^ t → ((k : ℕ) → k < t → bit x k ≡ 1) → x ≡ 2 ^ t - 1
full-bit zero x small ones = omega arith
full-bit (suc t) x small ones = omega (
  arith,
  pow-suc 2 t,
  one-le-pow t 2 (omega arith),
  ones 0 (omega arith),
  full-bit t (x / 2) (omega (arith, pow-suc 2 t)) (λ k h. ones (suc k) (omega arith)),
)

pub bit_or-lt : (t x y : ℕ) → x < 2 ^ t → y < 2 ^ t → bit_or x y < 2 ^ t
bit_or-lt zero x y p q =
    let x_zero : x ≡ 0 = omega arith in
    let y_zero : y ≡ 0 = omega arith in rw (x_zero, y_zero) (omega arith)
bit_or-lt (suc t) x y p q = omega (
  arith,
  pow-suc 2 t,
  bit_or_step x y,
  bit_or-lt t (x / 2) (y / 2) (omega (arith, pow-suc 2 t)) (omega (arith, pow-suc 2 t)),
)
