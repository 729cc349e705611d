-- ===== src/Metainfo/Names.antt =====
-- The names that `sanitize_file_BEN_string` of parser/parser.c lets through are safe file names.
use bite_bit_bitten.Common.{
  ℕ, ◌-◌, ◌^◌, ◌≤◌, ◌<◌, ◌≡◌, refl, sym, ap, ap₂, ◌∙◌, ◌≢◌, ◌↔◌, false, Option, List, [], ◌∷◌, ◌++◌,
  map, arith, length, get_or, take, drop, All, drop-append, take-append,
}
use bite_bit_bitten.Common.Outcome.{ok}
use bite_bit_bitten.Bencode.{BenString}
use bite_bit_bitten.Metainfo.Sanitize.{reserved, sanitize_file_ben_string}
use bite_bit_bitten.Metainfo.Clean.{
  clean, is_trailing, length-map-clean, cleaned_buffer, sanitize_file_ben_string_lem,
}

-- No control byte, and none of `<`, `>`, `:`, `"`, `/`, the backslash, `|`, `?` and `*`.
abbrev pub IsAllowed : ℕ → Type 0
IsAllowed b =
    (32 ≤ b)
    × All (λ bad. b ≢ bad) (b'<' ∷ b'>' ∷ b':' ∷ b'"' ∷ b'/' ∷ 92 ∷ b'|' ∷ b'?' ∷ b'*' ∷ [])

-- A file name that stays inside of its directory: it is not empty, holds no `/` and no other
-- reserved byte, does not begin with a space and does not end with a space or a dot. So it is
-- neither `.` nor `..`.
pub record IsSafe (name : List ℕ) : Type 0 where
  pub nonempty : 0 < length name
  pub allowed : All IsAllowed name
  pub first : get_or name 0 0 ≢ b' '
  pub last : is_trailing (get_or name (length name - 1) 0) ≡ false

clean_iff : (x : ℕ) → (clean x ≡ x) ↔ (reserved x ≡ false)
clean_iff x = ground arith

append_cancel :
    (before xs ys after : List ℕ)
    → length xs ≡ length ys
    → before ++ (xs ++ after) ≡ before ++ (ys ++ after)
    → xs ≡ ys
append_cancel before xs ys after same h =
    let tails = ap (drop (length before)) h in
    let inner = sym (drop-append before (xs ++ after)) ∙ tails ∙ drop-append before (ys ++ after) in
    sym (take-append xs after)
    ∙ ap (take (length xs)) inner
    ∙ ap (λ n. take n (ys ++ after)) same
    ∙ take-append ys after

map-clean_iff : (xs : List ℕ) → (map clean xs ≡ xs) ↔ All (λ b. reserved b ≡ false) xs
map-clean_iff [] = (λ h. tt, λ h. refl)
map-clean_iff (x ∷ xs) = (
  λ h. ((clean_iff x).0 (cc h), (map-clean_iff xs).0 (cc h)),
  λ h. ap₂ ◌∷◌ ((clean_iff x).1 h.0) ((map-clean_iff xs).1 h.1),
)

-- The function writes to the buffer that the whole file was read into: the buffer is as it was
-- exactly when the slice holds no reserved byte.
pub sanitize_file_ben_string-unchanged :
    (before xs after : List ℕ) {buffer : List ℕ} {s : Option BenString}
    → length (before ++ (xs ++ after)) < 2 ^ 31
    → sanitize_file_ben_string reserved
        (before ++ (xs ++ after))
        (record { start = length before; length = length xs })
      ≡ ok (buffer, s)
    → (buffer ≡ before ++ (xs ++ after)) ↔ All (λ b. reserved b ≡ false) xs
sanitize_file_ben_string-unchanged before xs after {buffer} {s} small e =
    let both = sym (sanitize_file_ben_string_lem before xs after small) ∙ e in
    let same : cleaned_buffer before xs after ≡ buffer = cc both in
    (
      λ h.
          (map-clean_iff xs).0
            (append_cancel before (map clean xs) xs after (length-map-clean xs) (same ∙ h)),
      λ h. sym same ∙ ap (λ l. before ++ (l ++ after)) ((map-clean_iff xs).1 h),
    )
