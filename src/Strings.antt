-- ===== src/Strings.antt =====
-- utils/str_utils.c. A C string is the list of its bytes before the 0; a function that changes it in
-- place gives the bytes after it.
pub mod Suffix
pub mod Trim
mod Tests
use bite_bit_bitten.Common.{
  ℕ, zero, suc, ◌+◌, ◌-◌, Bool, true, false, List, [], ◌∷◌, ltb, ◌==◌, if◌then◌else◌, length,
  get_or, take,
}
use bite_bit_bitten.Bencode.Strtol.{is_space}

abbrev pub skip_spaces : List ℕ → List ℕ
skip_spaces [] = []
skip_spaces (b ∷ str) = let rest = skip_spaces str in if is_space b then rest else b ∷ str

-- The loop from the end, which stops at the first byte: the place of the last byte that stays.
abbrev pub last_kept : List ℕ → ℕ → ℕ
last_kept str zero = 0
last_kept str (suc i) =
    let before = last_kept str i in if is_space (get_or str (suc i) 0) then before else suc i

-- A string of white space alone becomes empty.
unfoldable pub trim_spaces : List ℕ → List ℕ
trim_spaces str =
    let start = skip_spaces str in
    if length start == 0 then [] else take (last_kept start (length start - 1) + 1) start

abbrev pub replace_where : (ℕ → Bool) → ℕ → List ℕ → List ℕ
replace_where test replacement [] = []
replace_where test replacement (b ∷ str) =
    (if test b then replacement else b) ∷ replace_where test replacement str

unfoldable pub replace_spaces_with : List ℕ → ℕ → List ℕ
replace_spaces_with str replacement = replace_where (λ b. b == b' ') replacement str

-- "\\/:*?\"<>|"
abbrev pub reserved : List ℕ
reserved = b'\\' ∷ b'/' ∷ b':' ∷ b'*' ∷ b'?' ∷ b'"' ∷ b'<' ∷ b'>' ∷ b'|' ∷ []

abbrev pub is_among : ℕ → List ℕ → Bool
is_among c [] = false
is_among c (r ∷ rest) = if c == r then true else is_among c rest

-- `ch` is the byte of the `char`.
unfoldable pub is_bad_char : ℕ → Bool
is_bad_char ch = if ltb ch 0x20 then true else if ch == 0x7F then true else is_among ch reserved

unfoldable pub replace_bad_chars_with : List ℕ → ℕ → List ℕ
unfolding is_bad_char
replace_bad_chars_with str replacement = replace_where is_bad_char replacement str

unfoldable pub truncate_filename : List ℕ → List ℕ
truncate_filename str = if ltb 255 (length str) then take 255 str else str

-- The loop from the end, with `n` bytes of the suffix left; both lengths fit an `int`.
unfoldable pub suffix_from : ℕ → List ℕ → List ℕ → Bool
suffix_from zero str suffix = true
suffix_from (suc n) str suffix =
    let i = length suffix - suc n in
    let rest = suffix_from n str suffix in
    if get_or suffix (length suffix - 1 - i) 0 == get_or str (length str - 1 - i) 0
    then rest
    else false

unfoldable pub contains_suffix : List ℕ → List ℕ → Bool
unfolding suffix_from
contains_suffix str suffix =
    if ltb (length str) (length suffix) then false else suffix_from (length suffix) str suffix
