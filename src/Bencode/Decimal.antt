-- ===== src/Bencode/Decimal.antt =====
-- `strtol` reads back what is written in decimal.
use bite_bit_bitten.Common.{
  ℕ, zero, suc, ◌+◌, ◌-◌, ◌*◌, ◌/◌, ◌%◌, ◌^◌, ◌≤◌, min, ◌≡◌, refl, sym, ap, ◌∙◌, subst, inl, inr,
  false, some, List, [], ◌∷◌, ◌++◌, arith, ltb, ltb→lt, ltb→ge, Bool-cases, length, All, All-append,
  ℤ, pos, negsuc,
}
use bite_bit_bitten.Bencode.Strtol.{is_digit, strtol_digits, strtol_sign, strtol_from, strtol}
use bite_bit_bitten.Bencode.Tree.{decimal_digits, decimal, signed_decimal, IsInt64}

abbrev pub IsDigit : ℕ → Type 0
IsDigit b = (b'0' ≤ b) × (b ≤ b'9')

-- the number that digits continue `acc` to
abbrev pub digits_value : List ℕ → ℕ → ℕ
digits_value [] acc = acc
digits_value (d ∷ ds) acc = digits_value ds (acc * 10 + (d - b'0'))

digits_value-append :
    (xs ys : List ℕ) (acc : ℕ) → digits_value (xs ++ ys) acc ≡ digits_value ys (digits_value xs acc)
digits_value-append [] ys acc = refl
digits_value-append (x ∷ xs) ys acc = digits_value-append xs ys (acc * 10 + (x - b'0'))

strtol_digits_lem :
    (ds : List ℕ) (b : ℕ) (rest : List ℕ) (acc n : ℕ)
    → All IsDigit ds
    → is_digit b ≡ false
    → strtol_digits (ds ++ b ∷ rest) acc n ≡ some (digits_value ds acc, n + length ds)
unfolding strtol_digits
strtol_digits_lem [] b rest acc n h e = ground arith
strtol_digits_lem (d ∷ ds) b rest acc n h e =
    ground (arith, strtol_digits_lem ds b rest (acc * 10 + (d - b'0')) (n + 1) h.1 e)

pub decimal_digits-IsDigit : (f n : ℕ) → All IsDigit (decimal_digits f n)
unfolding decimal_digits
decimal_digits-IsDigit zero n = omega arith
decimal_digits-IsDigit (suc f) n = elim (Bool-cases (ltb n 10)) [
  | inl small ↦ rw small (omega arith)
  | inr large ↦ rw large (
      All-append IsDigit (decimal_digits f (n / 10)) _ (decimal_digits-IsDigit f (n / 10))
        (omega arith))
]

decimal_digits-value : (f n : ℕ) → n ≤ f → digits_value (decimal_digits f n) 0 ≡ n
unfolding decimal_digits
decimal_digits-value zero n h = omega arith
decimal_digits-value (suc f) n h = elim (Bool-cases (ltb n 10)) [
  | inl small ↦ rw small (omega (arith, ltb→lt n 10 small))
  | inr large ↦
      rw (large, digits_value-append)
        (rw (decimal_digits-value f (n / 10) (omega (arith, ltb→ge n 10 large))) (omega arith))
]

-- Digits are never empty, so the first byte of a number is a digit.
pub decimal_digits-head :
    (f n : ℕ) → (d : ℕ) × (ds : List ℕ) × (decimal_digits f n ≡ d ∷ ds) × IsDigit d
unfolding decimal_digits
decimal_digits-head zero n = (n % 10 + b'0', [], refl, omega arith)
decimal_digits-head (suc f) n = elim (Bool-cases (ltb n 10)) [
  | inl small ↦ (n % 10 + b'0', [], rw small, omega arith)
  | inr large ↦
      let high = decimal_digits-head f (n / 10) in
      (high.0, high.1 ++ (n % 10 + b'0') ∷ [], rw large (rw high.2), high.3)
]

strtol-digits :
    (d : ℕ) (ds : List ℕ) (b : ℕ) (rest : List ℕ)
    → All IsDigit (d ∷ ds)
    → is_digit b ≡ false
    → strtol (d ∷ (ds ++ b ∷ rest))
      ≡ some (pos (min (digits_value (d ∷ ds) 0) (2 ^ 63 - 1)), length (d ∷ ds))
unfolding strtol
strtol-digits d ds b rest h e =
    rw (strtol_from, strtol_sign, strtol_digits_lem (d ∷ ds) b rest 0 0 h e) (ground arith)

-- `strtol` gives the number written, and stops behind its last digit.
pub strtol-signed_decimal :
    (z : ℤ) (b : ℕ) (rest : List ℕ)
    → IsInt64 z
    → is_digit b ≡ false
    → strtol (signed_decimal z ++ b ∷ rest) ≡ some (z, length (signed_decimal z))
unfolding strtol
strtol-signed_decimal (pos n) b rest h e =
    let head = decimal_digits-head n n in
    let digits = subst (All IsDigit) head.2 (decimal_digits-IsDigit n n) in
    let value = ap (λ l. digits_value l 0) (sym head.2) ∙ decimal_digits-value n n (omega arith) in
    rw head.2 (
      strtol-digits head.0 head.1 b rest digits e
      ∙ ap (λ k. some (pos k, length (head.0 ∷ head.1)))
          (ap (λ k. min k (2 ^ 63 - 1)) value ∙ omega arith))
strtol-signed_decimal (negsuc n) b rest h e =
    let head = decimal_digits-head (n + 1) (n + 1) in
    rw (strtol_digits_lem (decimal (n + 1)) b rest 0 0 (decimal_digits-IsDigit (n + 1) (n + 1)) e)
      (rw (decimal_digits-value (n + 1) (n + 1) (omega arith)) (ground (arith, ap length head.2)))
