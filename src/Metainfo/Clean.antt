-- ===== src/Metainfo/Clean.antt =====
-- What `sanitize_file_BEN_string` of parser/parser.c makes of a slice of the buffer.
use bite_bit_bitten.Common.{
  ℕ, zero, suc, ◌+◌, ◌-◌, ◌^◌, ◌≤◌, ◌<◌, ◌≡◌, refl, sym, ap, ◌∙◌, inl, inr, Bool, true, false, ◌&&◌,
  ◌||◌, Option, none, some, List, [], ◌∷◌, ◌++◌, map, append_assoc, arith, ◌==◌, if◌then◌else◌,
  lt→leb, Bool-cases, length, get_elem?, get_or, set, take, drop, length-append, length-take,
  length-drop, drop-append, take-nil, take-append-drop, get_elem?-drop, u32,
}
use bite_bit_bitten.Common.Outcome.{Outcome, ok, ◌>>=◌}
use bite_bit_bitten.Bencode.{BenString}
use bite_bit_bitten.Bencode.Read.{Holds, Holds-advance, Holds-next}
use bite_bit_bitten.Metainfo.Sanitize.{
  reserved, replace_reserved, trim_start, trim_end, narrow, sanitize_file_ben_string,
}

-- The specification: reserved bytes become `_`, then spaces go from the front, and spaces and dots
-- from the end.
abbrev pub clean : ℕ → ℕ
clean b = if reserved b then b'_' else b

abbrev pub leading_spaces : List ℕ → ℕ
leading_spaces [] = 0
leading_spaces (x ∷ xs) = if x == b' ' then suc (leading_spaces xs) else 0

abbrev pub is_trailing : ℕ → Bool
is_trailing b = b == b' ' || b == b'.'

abbrev pub keep_unless_empty : ℕ → List ℕ → List ℕ
keep_unless_empty x [] = if is_trailing x then [] else x ∷ []
keep_unless_empty x (y ∷ ys) = x ∷ y ∷ ys

abbrev pub trim_right : List ℕ → List ℕ
trim_right [] = []
trim_right (x ∷ xs) = keep_unless_empty x (trim_right xs)

abbrev pub sanitized : List ℕ → List ℕ
sanitized bytes =
    let cleaned = map clean bytes in trim_right (drop (leading_spaces cleaned) cleaned)

pub trim_right-snoc :
    (xs : List ℕ) (b : ℕ)
    → trim_right (xs ++ b ∷ []) ≡ (if is_trailing b then trim_right xs else xs ++ b ∷ [])
trim_right-snoc [] b = refl
trim_right-snoc (x ∷ xs) b = elim (Bool-cases (is_trailing b)) [
  | inl h ↦ rw (trim_right-snoc xs b, h)
  | inr h ↦ rw (trim_right-snoc xs b, h) (kept x xs b)
]
  where
    kept : (x : ℕ) (xs : List ℕ) (b : ℕ) → keep_unless_empty x (xs ++ b ∷ []) ≡ x ∷ (xs ++ b ∷ [])
    kept x [] b = refl
    kept x (y ∷ ys) b = refl

pub take-snoc :
    (n : ℕ) (xs : List ℕ) → n < length xs → take (suc n) xs ≡ take n xs ++ get_or xs n 0 ∷ []
take-snoc n [] h = absurd (omega arith)
take-snoc zero (x ∷ xs) h = refl
take-snoc (suc n) (x ∷ xs) h = ap (λ l. x ∷ l) (take-snoc n xs (omega arith))

get_elem?-Holds :
    (buffer : List ℕ) (p n : ℕ) (xs after : List ℕ)
    → Holds buffer p (xs ++ after)
    → n < length xs
    → get_elem? buffer (p + n) ≡ some (get_or xs n 0)
get_elem?-Holds buffer p n [] after h below = absurd (omega arith)
get_elem?-Holds buffer p zero (x ∷ xs) after h below =
    let e : p + 0 ≡ p = omega arith in rw e (get_elem?-drop buffer p h)
get_elem?-Holds buffer p (suc n) (x ∷ xs) after h below =
    let e : p + suc n ≡ p + 1 + n = omega arith in
    rw e (
      get_elem?-Holds buffer (p + 1) n xs after (Holds-next buffer p x (xs ++ after) h)
        (omega arith))

set-append :
    (before : List ℕ) (x : ℕ) (after : List ℕ) (v : ℕ)
    → set (before ++ x ∷ after) (length before) v ≡ before ++ v ∷ after
set-append [] x after v = refl
set-append (b ∷ before) x after v = ap (λ l. b ∷ l) (set-append before x after v)

-- The loop replaces exactly the reserved bytes of the slice.
replace_reserved_lem :
    (before xs after : List ℕ)
    → replace_reserved reserved (before ++ (xs ++ after)) (length before) (length xs)
      ≡ ok (before ++ (map clean xs ++ after))
unfolding replace_reserved
replace_reserved_lem before [] after = refl
replace_reserved_lem before (x ∷ xs) after =
    let at =
      get_elem?-drop (before ++ x ∷ (xs ++ after)) (length before)
        (drop-append before (x ∷ (xs ++ after))) in
    let place = length-append before (clean x ∷ []) in
    let written : (if reserved x
          then set (before ++ x ∷ (xs ++ after)) (length before) b'_'
          else before ++ x ∷ (xs ++ after))
        ≡ before ++ clean x ∷ (xs ++ after) =
      ground (arith, set-append before x (xs ++ after) b'_') in
    let moved : length before + 1 ≡ length (before ++ clean x ∷ []) = sym place in
    rw at (
      rw (written, moved, sym (append_assoc before (clean x ∷ []) (xs ++ after)))
        (replace_reserved_lem (before ++ clean x ∷ []) xs after
          ∙ ap ok (append_assoc before (clean x ∷ []) (map clean xs ++ after))))

trim_start_lem :
    (buffer : List ℕ) (p : ℕ) (xs after : List ℕ) (acc : ℕ)
    → Holds buffer p (xs ++ after)
    → trim_start buffer p (length xs) acc ≡ ok (acc + leading_spaces xs)
unfolding trim_start
trim_start_lem buffer p [] after acc h = ground arith
trim_start_lem buffer p (x ∷ xs) after acc h = rw (get_elem?-drop buffer p h) (
    ground (
      arith,
      trim_start_lem buffer (p + 1) xs after (acc + 1) (Holds-next buffer p x (xs ++ after) h),
    ))

trim_end_lem :
    (buffer : List ℕ) (p n : ℕ) (xs after : List ℕ)
    → Holds buffer p (xs ++ after)
    → n ≤ length xs
    → trim_end buffer p n ≡ ok (length (trim_right (take n xs)))
unfolding trim_end
trim_end_lem buffer p zero xs after h le = refl
trim_end_lem buffer p (suc n) xs after h le =
    let more = trim_end_lem buffer p n xs after h (omega arith) in
    let size = length-append (take n xs) (get_or xs n 0 ∷ []) in
    rw
      (
        get_elem?-Holds buffer p n xs after h (omega arith),
        take-snoc n xs (omega arith),
        trim_right-snoc,
      )
      (ground (arith, length-take n xs))

-- What the slice becomes when the byte before it is at `p`.
abbrev pub narrowed : ℕ → List ℕ → Option BenString
narrowed p bytes =
    let kept = length (sanitized bytes) in
    if kept == 0
    then none
    else some (record { start = p + leading_spaces (map clean bytes); length = kept })

pub length-map-clean : (xs : List ℕ) → length (map clean xs) ≡ length xs
length-map-clean [] = refl
length-map-clean (x ∷ xs) = ap suc (length-map-clean xs)

pub leading_spaces-le : (xs : List ℕ) → leading_spaces xs ≤ length xs
leading_spaces-le [] = omega arith
leading_spaces-le (x ∷ xs) = ground (arith, leading_spaces-le xs)

pub take_all : (xs : List ℕ) (n : ℕ) → length xs ≡ n → take n xs ≡ xs
take_all [] n h = take-nil n
take_all (x ∷ xs) zero h = absurd (omega arith)
take_all (x ∷ xs) (suc n) h = ap (λ l. x ∷ l) (take_all xs n (omega arith))

module _ (before xs after : List ℕ) where
  abbrev pub dirty : List ℕ
  dirty = before ++ (xs ++ after)

  abbrev pub cleaned_buffer : List ℕ
  cleaned_buffer = before ++ (map clean xs ++ after)

  abbrev lead : ℕ
  lead = leading_spaces (map clean xs)

  pub trimmed-Holds :
      Holds cleaned_buffer (length before + lead) (drop lead (map clean xs) ++ after)
  trimmed-Holds =
      let all = drop-append before (map clean xs ++ after) in
      let parts = sym (take-append-drop lead (map clean xs)) in
      let size : length (take lead (map clean xs)) ≡ lead =
        omega (arith, length-take lead (map clean xs), leading_spaces-le (map clean xs)) in
      ap (λ n. drop (length before + n) cleaned_buffer) (sym size)
      ∙ Holds-advance cleaned_buffer (length before) (take lead (map clean xs))
          (drop lead (map clean xs) ++ after)
          (all
            ∙ ap (λ l. l ++ after) parts
            ∙ append_assoc (take lead (map clean xs)) (drop lead (map clean xs)) after)

  -- the loops of the function, one after the other
  loops_lem :
      (replace_reserved reserved dirty (length before) (length xs) >>= λ buffer'.
      trim_start buffer' (length before) (length xs) 0 >>= λ start_pos.
      trim_end buffer' (length before + start_pos) (length xs - start_pos) >>= λ kept.
      ok (narrow buffer' (length before + start_pos) kept))
      ≡ ok (cleaned_buffer, narrowed (length before) xs)
  loops_lem =
      let same = length-map-clean xs in
      let start : trim_start cleaned_buffer (length before) (length xs) 0 ≡ ok lead =
        ap (λ n. trim_start cleaned_buffer (length before) n 0) (sym same)
        ∙ trim_start_lem cleaned_buffer (length before) (map clean xs) after 0
            (drop-append before (map clean xs ++ after))
        ∙ ap ok (omega arith) in
      let rest : length xs - lead ≡ length (drop lead (map clean xs)) =
        omega (arith, length-drop lead (map clean xs)) in
      let stop =
        trim_end_lem cleaned_buffer (length before + lead) (length (drop lead (map clean xs)))
          (drop lead (map clean xs)) after trimmed-Holds (omega arith)
        ∙ ap (λ l. ok (length (trim_right l))) (take_all (drop lead (map clean xs)) _ refl) in
      rw (replace_reserved_lem before xs after) (rw start (rw (rest, stop)))

dot_lem :
    (before : List ℕ) (x : ℕ) (xs after : List ℕ)
    → (x == b'.' && length (x ∷ xs) == 1) ≡ true
    → ◌≡◌ {A = Outcome (List ℕ × Option BenString)}
        (ok (before ++ x ∷ (xs ++ after), none))
        (ok (before ++ clean x ∷ (map clean xs ++ after), narrowed (length before) (x ∷ xs)))
dot_lem before x [] after h = let e : x ≡ b'.' = ground arith in rw e
dot_lem before x (y ∷ ys) after h = absurd (ground arith)

-- For a slice inside of a buffer of less than 2 GiB: the reserved bytes of the slice become `_` in
-- the buffer and nothing else changes there, and the slice narrows to what trimming leaves, or is
-- refused when that is nothing.
pub sanitize_file_ben_string_lem :
    (before xs after : List ℕ)
    → length (before ++ (xs ++ after)) < 2 ^ 31
    → sanitize_file_ben_string reserved
        (before ++ (xs ++ after))
        (record { start = length before; length = length xs })
      ≡ ok (before ++ (map clean xs ++ after), narrowed (length before) xs)
unfolding sanitize_file_ben_string
sanitize_file_ben_string_lem before [] after small = refl
sanitize_file_ben_string_lem before (x ∷ xs) after small =
    let at =
      get_elem?-drop (before ++ x ∷ (xs ++ after)) (length before)
        (drop-append before (x ∷ (xs ++ after))) in
    let n : u32 (length (x ∷ xs)) ≡ length (x ∷ xs) =
      omega (arith, length-append before (x ∷ (xs ++ after)), length-append xs after) in
    let below =
      lt→leb (2 ^ 31) (length (x ∷ xs))
        (omega (arith, length-append before (x ∷ (xs ++ after)), length-append xs after)) in
    let nonzero : (length (x ∷ xs) == 0) ≡ false = ground arith in
    elim (Bool-cases (x == b'.' && length (x ∷ xs) == 1)) [
      | inl dot ↦ rw (nonzero, at) (rw dot (dot_lem before x xs after dot))
      | inr other ↦ rw (nonzero, at) (rw (other, n) (rw below (loops_lem before (x ∷ xs) after)))
    ]
