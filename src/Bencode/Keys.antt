-- ===== src/Bencode/Keys.antt =====
-- Comparison of a slice with a C string.
use bite_bit_bitten.Common.{
  ℕ, ◌<◌, ◌≡◌, refl, ◌≢◌, ◌↔◌, Bool, true, false, ◌&&◌, List, [], ◌∷◌, ◌++◌, arith, ◌==◌, length,
  All,
}
use bite_bit_bitten.Common.Outcome.{ok}
use bite_bit_bitten.Bencode.Strtol.{strncmp_eq}

unfoldable pub same_bytes : List ℕ → List ℕ → Bool
same_bytes [] [] = true
same_bytes [] (k ∷ ks) = false
same_bytes (x ∷ xs) [] = false
same_bytes (x ∷ xs) (k ∷ ks) = x == k && same_bytes xs ks

pub same_bytes_iff : (xs ks : List ℕ) → (same_bytes xs ks ≡ true) ↔ (xs ≡ ks)
unfolding same_bytes
same_bytes_iff [] [] = (λ h. refl, λ h. refl)
same_bytes_iff [] (k ∷ ks) = (λ h. cc, λ h. cc)
same_bytes_iff (x ∷ xs) [] = (λ h. cc, λ h. cc)
same_bytes_iff (x ∷ xs) (k ∷ ks) = ground (arith, same_bytes_iff xs ks)

pub same_bytes-length : (xs ks : List ℕ) → length xs ≢ length ks → same_bytes xs ks ≡ false
unfolding same_bytes
same_bytes-length [] [] h = absurd (h refl)
same_bytes-length [] (k ∷ ks) h = refl
same_bytes-length (x ∷ xs) [] h = refl
same_bytes-length (x ∷ xs) (k ∷ ks) h = ground (arith, same_bytes-length xs ks)

pub same_bytes_refl : (xs : List ℕ) → same_bytes xs xs ≡ true
same_bytes_refl xs = (same_bytes_iff xs xs).1 refl

-- At equal lengths `strncmp` finds the two equal exactly when their bytes are, whatever follows.
pub strncmp_eq_lem :
    (xs ks more : List ℕ)
    → length xs ≡ length ks
    → All (λ k. 0 < k) ks
    → strncmp_eq (xs ++ more) ks (length xs) ≡ ok (same_bytes xs ks)
unfolding strncmp_eq same_bytes
strncmp_eq_lem [] [] more e nonzero = refl
strncmp_eq_lem [] (k ∷ ks) more e nonzero = absurd (omega arith)
strncmp_eq_lem (x ∷ xs) [] more e nonzero = absurd (omega arith)
strncmp_eq_lem (x ∷ xs) (k ∷ ks) more e nonzero =
    ground (arith, strncmp_eq_lem xs ks more (omega arith) nonzero.1)
