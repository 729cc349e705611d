-- ===== src/Common/Slices.antt =====
-- A slice of a byte array: a start and a length, as a pointer into the array has them.
use Prim.Native.Nat.{ℕ}
use mathlib.Core.List.{List}
use bite_bit_bitten.Common.Lists.{take, drop}

abbrev pub slice {ℓ} : {A : Type ℓ} → List A → ℕ → ℕ → List A
slice xs start len = take len (drop start xs)
