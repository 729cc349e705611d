-- ===== src/Common/Bits.antt =====
-- The native `bit_and` and `bit_or` at variables: a low mask is a remainder, and `or` of disjoint
-- fields is a sum, at every width. Bytes are checked by tables.
use Prim.Native.Nat.{
  ℕ, zero, suc, ◌+◌, ◌-◌, ◌*◌, ◌/◌, ◌%◌, ◌^◌, ◌≤◌, ◌<◌, min, max, bit_and, bit_or, digits,
  bit_and-bitwise, bit_or-bitwise,
}
use mathlib.Core.Path.{◌≡◌, refl, ap}
use mathlib.Core.Bool.{Bool, true, ◌&&◌}
use native.Mathlib.Nat.{pow-suc, one-le-pow}
use native.Mathlib.Omega.{arith}

-- `digits` needs no more fuel than its first number.
module _ (z : ℕ → ℕ) (f : ℕ → ℕ → ℕ) where
  spare_digits : (k l : ℕ) (x y : ℕ) → x ≤ k → x ≤ l → digits z f k x y ≡ digits z f l x y
  spare_digits (suc k) (suc l) (suc x) y in_k in_l =
      omega (arith, spare_digits k l (suc x / 2) (y / 2) (omega arith) (omega arith))
  spare_digits (suc k) (suc l) zero y in_k in_l = refl
  spare_digits (suc k) zero (suc x) y in_k in_l = absurd (omega arith)
  spare_digits (suc k) zero zero y in_k in_l = refl
  spare_digits zero l (suc x) y in_k in_l = absurd (omega arith)
  spare_digits zero (suc l) zero y in_k in_l = refl
  spare_digits zero zero zero y in_k in_l = refl

-- The lowest digit of a number, and the digits above it.
pub bit_or_step : (x y : ℕ) → bit_or x y ≡ bit_or (x / 2) (y / 2) * 2 + max (x % 2) (y % 2)
bit_or_step zero y = simp bit_or-bitwise (omega arith)
bit_or_step (suc x) y =
    let half = suc x / 2 in
    simp bit_or-bitwise
      (omega (arith, spare_digits (λ t. t) max x half half (y / 2) (omega arith) (omega arith)))

pub bit_and_step : (x y : ℕ) → bit_and x y ≡ bit_and (x / 2) (y / 2) * 2 + min (x % 2) (y % 2)
bit_and_step zero y = simp bit_and-bitwise (omega arith)
bit_and_step (suc x) y =
    let half = suc x / 2 in
    simp bit_and-bitwise
      (omega (arith, spare_digits (λ t. 0) min x half half (y / 2) (omega arith) (omega arith)))

bit_and-zero_below : (n a : ℕ) → a ≤ n → bit_and a 0 ≡ 0
bit_and-zero_below n zero h = refl
bit_and-zero_below zero (suc a) h = absurd (omega arith)
bit_and-zero_below (suc n) (suc a) h =
    omega (arith, bit_and_step (suc a) 0, bit_and-zero_below n (suc a / 2) (omega arith))

pub bit_and-zero : (a : ℕ) → bit_and a 0 ≡ 0
bit_and-zero a = bit_and-zero_below a a (omega arith)

bit_or-zero_below : (n a : ℕ) → a ≤ n → bit_or a 0 ≡ a
bit_or-zero_below n zero h = refl
bit_or-zero_below zero (suc a) h = absurd (omega arith)
bit_or-zero_below (suc n) (suc a) h =
    omega (arith, bit_or_step (suc a) 0, bit_or-zero_below n (suc a / 2) (omega arith))

pub bit_or-zero : (a : ℕ) → bit_or a 0 ≡ a
bit_or-zero a = bit_or-zero_below a a (omega arith)

double_pow : (q k : ℕ) → q * 2 ^ suc k ≡ 2 * (q * 2 ^ k)
double_pow q k = omega (arith, ap (λ (t : ℕ). q * t) (pow-suc 2 k))

mask_fields : (w high low : ℕ) → low < 2 ^ w → bit_and (high * 2 ^ w + low) (2 ^ w - 1) ≡ low
mask_fields zero high low h = rw (bit_and-zero (high * 2 ^ 0 + low)) (omega arith)
mask_fields (suc w) high low h =
    let halves = mask_fields w high (low / 2) (omega arith) in
    let lowest = bit_and_step (high * 2 ^ suc w + low) (2 ^ suc w - 1) in
    ground (arith, lowest, double_pow high w, pow-suc 2 w, halves)

-- `(high << w) | low` is a sum when `low` fits `w` bits.
pub bit_or_fields : (w high low : ℕ) → low < 2 ^ w → bit_or (high * 2 ^ w) low ≡ high * 2 ^ w + low
bit_or_fields zero high low h = ground (arith, bit_or-zero high)
bit_or_fields (suc w) high low h =
    let halves = bit_or_fields w high (low / 2) (omega arith) in
    let lowest = bit_or_step (high * 2 ^ suc w) low in
    ground (arith, lowest, double_pow high w, halves)

-- A mask of `k` ones is the remainder by `2 ^ k`.
pub bit_and_mask : (k a : ℕ) → bit_and a (2 ^ k - 1) ≡ a % 2 ^ k
bit_and_mask k a = ground (arith, one-le-pow k 2, mask_fields k (a / 2 ^ k) (a % 2 ^ k))

-- Over a small range, check every value by evaluation.
abbrev pub all_below : ℕ → (ℕ → Bool) → Bool
all_below zero p = true
all_below (suc n) p = p n && all_below n p

pub all_below_sound : (n : ℕ) (p : ℕ → Bool) (x : ℕ) → all_below n p ≡ true → x < n → p x ≡ true
all_below_sound zero p x h lt = absurd (omega arith)
all_below_sound (suc n) p x h lt = ground (arith, all_below_sound n p x)
