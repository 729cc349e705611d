-- ===== src/Sha1/Rotate.antt =====
-- The rotation as arithmetic.
use bite_bit_bitten.Common.{
  ℕ, suc, ◌+◌, ◌-◌, ◌*◌, ◌/◌, ◌%◌, ◌^◌, ◌≤◌, ◌<◌, ◌≡◌, refl, sym, ap, ◌∙◌, subst, arith, ◌==◌,
  ==_iff,
}
use native.Mathlib.Nat.{add-mul-mod_self_right, mod-eq_of_lt, mod-lt, div-add-mod', one-le-pow}
use native.Mathlib.Decide.{dec_lt}
use bite_bit_bitten.Common.Bits.{bit_or_fields, all_below_sound}
use bite_bit_bitten.Sha1.{rotate_left}

pow_split : (n : ℕ) → n < 33 → 2 ^ n * 2 ^ (32 - n) ≡ 2 ^ 32
pow_split n h = (==_iff _ _).0 (all_below_sound 33 (λ n. 2 ^ n * 2 ^ (32 - n) == 2 ^ 32) n refl h)

high_part : (q m r : ℕ) → r < m → (q * m + r) / m ≡ q
high_part q m r h = grind arith

low_part : (q m r p : ℕ) → r < m → 0 < p → ((q * m + r) * p) % (p * m) ≡ r * p
low_part q m r p h some_p =
    let whole : (q * m + r) * p ≡ r * p + q * (p * m) = omega arith in
    let below : r * p < p * m = grind arith in
    rw (whole, add-mul-mod_self_right) (mod-eq_of_lt below)

above : (q r m p word : ℕ) → q * m + r ≡ word → p * m ≡ 2 ^ 32 → word < 2 ^ 32 → p ≤ q → ⊥
above q r m p word e split small h = let more : p * m ≤ q * m = grind arith in omega arith

quotient-lt : (q r m p word : ℕ) → q * m + r ≡ word → p * m ≡ 2 ^ 32 → word < 2 ^ 32 → q < p
quotient-lt q r m p word e split small = elim (dec_lt q p) [
  | yes h ↦ h
  | no h ↦ absurd (above q r m p word e split small (omega arith))
]

joined-lt : (r q p m : ℕ) → p * m ≡ 2 ^ 32 → q < p → r < m → r * p + q < 2 ^ 32
joined-lt r q p m split hq hr = let row : suc r * p ≤ m * p = grind arith in omega arith

-- The rotation moves the high `n` bits of a word below the other `32 - n`.
pub rotate_left_fields :
    (n q r : ℕ)
    → n < 33
    → q < 2 ^ n
    → r < 2 ^ (32 - n)
    → rotate_left (q * 2 ^ (32 - n) + r) n ≡ r * 2 ^ n + q
unfolding rotate_left
rotate_left_fields n q r h hq hr =
    let split = pow_split n h in
    let low : ((q * 2 ^ (32 - n) + r) * 2 ^ n) % 2 ^ 32 ≡ r * 2 ^ n =
      ap (λ k. ((q * 2 ^ (32 - n) + r) * 2 ^ n) % k) (sym split)
      ∙ low_part q (2 ^ (32 - n)) r (2 ^ n) hr (one-le-pow n 2 (omega arith)) in
    rw (low, high_part q (2 ^ (32 - n)) r hr) (bit_or_fields n r q hq)

-- A word rotated by `n` and then by `32 - n` is itself again, for every word and rotation.
pub rotate_left_back :
    (n word : ℕ) → n < 33 → word < 2 ^ 32 → rotate_left (rotate_left word n) (32 - n) ≡ word
rotate_left_back n word h small =
    let q = word / 2 ^ (32 - n) in
    let r = word % 2 ^ (32 - n) in
    let split = pow_split n h in
    let back : 32 - (32 - n) ≡ n = omega arith in
    let parts : q * 2 ^ (32 - n) + r ≡ word = div-add-mod' word (2 ^ (32 - n)) in
    let r_small : r < 2 ^ (32 - n) = mod-lt word (one-le-pow (32 - n) 2 (omega arith)) in
    let q_small : q < 2 ^ n = quotient-lt q r (2 ^ (32 - n)) (2 ^ n) word parts split small in
    let q_fits : q < 2 ^ (32 - (32 - n)) = rw back q_small in
    let again : rotate_left (r * 2 ^ (32 - (32 - n)) + q) (32 - n) ≡ q * 2 ^ (32 - n) + r =
      rotate_left_fields (32 - n) r q (omega arith) r_small (rw back q_small) in
    ap (λ w. rotate_left (rotate_left w n) (32 - n)) (sym parts)
    ∙ ap (λ w. rotate_left w (32 - n)) (rotate_left_fields n q r h q_small r_small)
    ∙ ap (λ k. rotate_left (r * 2 ^ k + q) (32 - n)) (sym back)
    ∙ again
    ∙ parts

-- A rotated word is a word.
pub rotate_left-lt : (n word : ℕ) → n < 33 → word < 2 ^ 32 → rotate_left word n < 2 ^ 32
rotate_left-lt n word h small =
    let q = word / 2 ^ (32 - n) in
    let r = word % 2 ^ (32 - n) in
    let split = pow_split n h in
    let parts : q * 2 ^ (32 - n) + r ≡ word = div-add-mod' word (2 ^ (32 - n)) in
    let r_small : r < 2 ^ (32 - n) = mod-lt word (one-le-pow (32 - n) 2 (omega arith)) in
    let q_small : q < 2 ^ n = quotient-lt q r (2 ^ (32 - n)) (2 ^ n) word parts split small in
    subst (λ k. k < 2 ^ 32)
      (sym (ap (λ w. rotate_left w n) (sym parts) ∙ rotate_left_fields n q r h q_small r_small))
      (joined-lt r q (2 ^ n) (2 ^ (32 - n)) split q_small r_small)
