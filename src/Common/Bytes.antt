-- ===== src/Common/Bytes.antt =====
-- Strings of bytes: comparison, the length of a C string, and words in the order of the machine.
use Prim.Native.Nat.{ℕ, suc, ◌+◌, ◌*◌, ◌/◌, ◌%◌}
use mathlib.Core.Path.{◌≡◌, refl, ap₂}
use mathlib.Core.Logic.{inl, inr}
use mathlib.Core.Bool.{Bool, true, false, ◌&&◌}
use mathlib.Core.List.{List, [], ◌∷◌}
use bite_bit_bitten.Common.Tests.{◌==◌, if◌then◌else◌, ==_iff, ==_refl, Bool-cases}
use bite_bit_bitten.Common.Outcome.{Outcome, ok, fault, ◌>>=◌}

-- `memcmp` of two arrays of one length, or `strcmp`, against 0
abbrev pub same_list : List ℕ → List ℕ → Bool
same_list [] [] = true
same_list [] (y ∷ ys) = false
same_list (x ∷ xs) [] = false
same_list (x ∷ xs) (y ∷ ys) = x == y && same_list xs ys

pub same_list-eq : (xs ys : List ℕ) → same_list xs ys ≡ true → xs ≡ ys
same_list-eq [] [] h = refl
same_list-eq [] (y ∷ ys) h = cc
same_list-eq (x ∷ xs) [] h = cc
same_list-eq (x ∷ xs) (y ∷ ys) h = elim (Bool-cases (x == y)) [
  | inl same ↦ ap₂ (λ a b. a ∷ b) ((==_iff x y).0 same) (same_list-eq xs ys (rw same at h))
  | inr other ↦ let broken : false ≡ true = rw other at h in cc
]

pub same_list_refl : (xs : List ℕ) → same_list xs xs ≡ true
same_list_refl [] = refl
same_list_refl (x ∷ xs) = rw (==_refl x) (same_list_refl xs)

-- `strlen` of a buffer, undefined when no byte of it is 0
abbrev pub strlen : List ℕ → Outcome ℕ
strlen [] = fault
strlen (b ∷ bytes) = if b == 0 then ok 0 else strlen bytes >>= λ n. ok (suc n)

-- a 32-bit word in memory, the low byte first
abbrev pub le_bytes : ℕ → List ℕ
le_bytes x = x % 256 ∷ x / 256 % 256 ∷ x / 65536 % 256 ∷ x / 16777216 % 256 ∷ []

abbrev pub le_word : List ℕ → ℕ
le_word [] = 0
le_word (b ∷ bytes) = b + 256 * le_word bytes
