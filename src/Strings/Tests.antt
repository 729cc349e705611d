-- ===== src/Strings/Tests.antt =====
-- Runs of the string functions.
use bite_bit_bitten.Common.{ℕ, ◌≡◌, refl, ◌↔◌, true, List, [], ◌∷◌, ◌++◌, length, replicate}
use bite_bit_bitten.Strings.{
  trim_spaces, contains_suffix, replace_spaces_with, replace_bad_chars_with, is_bad_char,
  truncate_filename,
}
use bite_bit_bitten.Strings.Suffix.{contains_suffix_iff}

abbrev padded : List ℕ
padded = b' ' ∷ 9 ∷ b'a' ∷ b' ' ∷ b'b' ∷ 10 ∷ []

trimmed : trim_spaces padded ≡ b'a' ∷ b' ' ∷ b'b' ∷ []
unfolding trim_spaces
trimmed = refl

replaced : replace_spaces_with (b'a' ∷ b' ' ∷ b'b' ∷ []) b'_' ≡ b'a' ∷ b'_' ∷ b'b' ∷ []
unfolding replace_spaces_with
replaced = refl

cleaned : replace_bad_chars_with (b'a' ∷ b'/' ∷ 7 ∷ b'b' ∷ []) b'_' ≡ b'a' ∷ b'_' ∷ b'_' ∷ b'b' ∷ []
unfolding replace_bad_chars_with is_bad_char
cleaned = refl

truncated : length (truncate_filename (replicate 300 b'a')) ≡ 255
unfolding truncate_filename
truncated = refl

contains_suffix_iff_example :
    (contains_suffix (b'a' ∷ b'.' ∷ b't' ∷ []) (b'.' ∷ b't' ∷ []) ≡ true)
    ↔ ((before : List ℕ) × (b'a' ∷ b'.' ∷ b't' ∷ [] ≡ before ++ (b'.' ∷ b't' ∷ [])))
contains_suffix_iff_example = contains_suffix_iff (b'a' ∷ b'.' ∷ b't' ∷ []) (b'.' ∷ b't' ∷ [])
