-- ===== src/Bencode/Strtol.antt =====
-- `strtol(nptr, &end, 10)` and `strncmp(…) == 0` of the C library over the bytes from a pointer on.
-- `none` and `fault` are a read past the last byte.
use bite_bit_bitten.Common.{
  ℕ, zero, suc, ◌+◌, ◌-◌, ◌*◌, ◌^◌, min, Bool, true, false, ◌&&◌, ◌||◌, Option, none, some, List,
  [], ◌∷◌, leb, ◌==◌, if◌then◌else◌, ℤ, pos, negsuc,
}
use bite_bit_bitten.Common.Outcome.{Outcome, ok, fault}

abbrev pub is_digit : ℕ → Bool
is_digit b = leb b'0' b && leb b b'9'

-- `isspace` of the C locale
abbrev pub is_space : ℕ → Bool
is_space b = b == b' ' || (leb 9 b && leb b 13)

-- the value of the digits and their number
unfoldable pub strtol_digits : List ℕ → ℕ → ℕ → Option (ℕ × ℕ)
strtol_digits [] acc n = none
strtol_digits (b ∷ bs) acc n =
    let more = strtol_digits bs (acc * 10 + (b - b'0')) (n + 1) in
    if is_digit b then more else some (acc, n)

-- A `long` has 64 bits; what does not fit becomes LONG_MAX or LONG_MIN.
abbrev pub saturate : Bool → ℕ → ℤ
saturate false v = pos (min v (2 ^ 63 - 1))
saturate true v = if v == 0 then pos 0 else negsuc (min v (2 ^ 63) - 1)

-- With no digit nothing is consumed and the result is 0.
abbrev pub strtol_finish : Bool → ℕ → Option (ℕ × ℕ) → Option (ℤ × ℕ)
strtol_finish negative before none = none
strtol_finish negative before (some (v, n)) =
    some (if n == 0 then (pos 0, 0) else (saturate negative v, before + n))

unfoldable pub strtol_sign : ℕ → List ℕ → ℕ → Option (ℤ × ℕ)
unfolding strtol_digits
strtol_sign b bs before =
    if b == b'-'
    then strtol_finish true (before + 1) (strtol_digits bs 0 0)
    else if b == b'+'
    then strtol_finish false (before + 1) (strtol_digits bs 0 0)
    else strtol_finish false before (strtol_digits (b ∷ bs) 0 0)

unfoldable pub strtol_from : List ℕ → ℕ → Option (ℤ × ℕ)
unfolding strtol_sign
strtol_from [] before = none
strtol_from (b ∷ bs) before =
    let more = strtol_from bs (before + 1) in if is_space b then more else strtol_sign b bs before

-- the value, and how far `end` is from `nptr`
unfoldable pub strtol : List ℕ → Option (ℤ × ℕ)
unfolding strtol_from
strtol bs = strtol_from bs 0

-- `strncmp(xs, key, n) == 0`, where `key` is a C string without its NUL
unfoldable pub strncmp_eq : List ℕ → List ℕ → ℕ → Outcome Bool
strncmp_eq xs ks zero = ok true
strncmp_eq [] ks (suc n) = fault
strncmp_eq (x ∷ xs) [] (suc n) = ok (x == 0)
strncmp_eq (x ∷ xs) (k ∷ ks) (suc n) =
    let rest = strncmp_eq xs ks n in if x == k then (if x == 0 then ok true else rest) else ok false
