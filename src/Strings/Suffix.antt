-- ===== src/Strings/Suffix.antt =====
-- `contains_suffix` of utils/str_utils.c says whether a string ends in another.
use bite_bit_bitten.Common.{
  ℕ, zero, suc, ◌+◌, ◌-◌, ◌≤◌, ◌<◌, ◌≡◌, refl, sym, ap, ap₂, ◌∙◌, ◌↔◌, inl, inr, true, false, List,
  [], ◌∷◌, ◌++◌, arith, ltb, ◌==◌, ltb→ge, le→ltb, ==_iff, Bool-cases, length, get_or, take, drop,
  length-append, length-drop, take-append-drop,
}
use bite_bit_bitten.Strings.{suffix_from, contains_suffix}

get_or-append_right : (xs ys : List ℕ) (i : ℕ) → get_or (xs ++ ys) (length xs + i) 0 ≡ get_or ys i 0
get_or-append_right [] ys i = ap (λ n. get_or ys n 0) (omega arith)
get_or-append_right (x ∷ xs) ys i =
    let e : suc (length xs) + i ≡ suc (length xs + i) = omega arith in
    rw e (get_or-append_right xs ys i)

pub get_or-drop : (xs : List ℕ) (k i : ℕ) → get_or xs (k + i) 0 ≡ get_or (drop k xs) i 0
get_or-drop xs zero i = ap (λ n. get_or xs n 0) (omega arith)
get_or-drop [] (suc k) i = refl
get_or-drop (x ∷ xs) (suc k) i =
    let e : suc k + i ≡ suc (k + i) = omega arith in rw e (get_or-drop xs k i)

pub same_places :
    (xs ys : List ℕ)
    → length xs ≡ length ys
    → ((i : ℕ) → i < length xs → get_or xs i 0 ≡ get_or ys i 0)
    → xs ≡ ys
same_places [] [] size h = refl
same_places [] (y ∷ ys) size h = absurd (omega (arith, size))
same_places (x ∷ xs) [] size h = absurd (omega (arith, size))
same_places (x ∷ xs) (y ∷ ys) size h =
    ap₂ (λ a b. a ∷ b) (h 0 (omega arith))
      (same_places xs ys (omega (arith, size)) (λ i below. h (suc i) (omega arith)))

-- The first `n` bytes of the suffix stand at their places in the string.
abbrev Agree : ℕ → List ℕ → List ℕ → Type 0
Agree n str suffix =
    (j : ℕ) → j < n → get_or suffix j 0 ≡ get_or str (length str - length suffix + j) 0

module _ (str suffix : List ℕ) (fits : length suffix ≤ length str) where
  at_end : (n : ℕ) → suc n ≤ length suffix → length suffix - 1 - (length suffix - suc n) ≡ n
  at_end n h = omega arith

  at_end_of_str :
      (n : ℕ)
      → suc n ≤ length suffix
      → length str - 1 - (length suffix - suc n) ≡ length str - length suffix + n
  at_end_of_str n h = omega arith

  suffix_from-Agree :
      (n : ℕ) → n ≤ length suffix → suffix_from n str suffix ≡ true → Agree n str suffix
  unfolding suffix_from
  suffix_from-Agree zero h e j below = absurd (omega arith)
  suffix_from-Agree (suc n) h e j below =
      let i = length suffix - suc n in
      elim (Bool-cases
        (get_or suffix (length suffix - 1 - i) 0 == get_or str (length str - 1 - i) 0)) [
          | inr other ↦ let wrong : false ≡ true = rw other at e in cc
          | inl same ↦ elim (Bool-cases (j == n)) [
            | inl last ↦
                let here = (==_iff j n).0 last in
                ap (λ k. get_or suffix k 0) (here ∙ sym (at_end n h))
                ∙ (==_iff (get_or suffix (length suffix - 1 - i) 0)
                      (get_or str (length str - 1 - i) 0)).0
                    same
                ∙ ap (λ k. get_or str k 0)
                    (at_end_of_str n h ∙ ap (λ k. length str - length suffix + k) (sym here))
            | inr before ↦
                suffix_from-Agree n (omega arith) (rw same at e) j (ground (arith, below, before))
          ]
        ]

  Agree-suffix_from :
      (n : ℕ) → n ≤ length suffix → Agree n str suffix → suffix_from n str suffix ≡ true
  unfolding suffix_from
  Agree-suffix_from zero h agree = refl
  Agree-suffix_from (suc n) h agree =
      let i = length suffix - suc n in
      let same =
        (==_iff (get_or suffix (length suffix - 1 - i) 0) (get_or str (length str - 1 - i) 0)).1 (
          ap (λ k. get_or suffix k 0) (at_end n h)
          ∙ agree n (omega arith)
          ∙ ap (λ k. get_or str k 0) (sym (at_end_of_str n h))) in
      rw same (Agree-suffix_from n (omega arith) (λ j below. agree j (omega arith)))

-- `contains_suffix` answers 1 exactly when the string is something followed by the suffix.
pub contains_suffix_iff :
    (str suffix : List ℕ)
    → (contains_suffix str suffix ≡ true) ↔ ((before : List ℕ) × (str ≡ before ++ suffix))
unfolding contains_suffix
contains_suffix_iff str suffix = (
  λ e. elim (Bool-cases (ltb (length str) (length suffix))) [
    | inl short ↦ let wrong : false ≡ true = rw short at e in cc
    | inr long ↦
        let fits = ltb→ge (length str) (length suffix) long in
        let off = length str - length suffix in
        let agree =
          suffix_from-Agree str suffix fits (length suffix) (omega arith) (rw long at e) in
        let end : drop off str ≡ suffix =
          same_places (drop off str) suffix (omega (arith, length-drop off str)) (λ i below.
            sym (get_or-drop str off i)
            ∙ sym (agree i (omega (arith, below, length-drop off str)))) in
        (take off str, sym (take-append-drop off str) ∙ ap (λ l. take off str ++ l) end)
  ],
  λ h.
      let (before, whole) = h in
      let size : length str ≡ length before + length suffix =
        ap length whole ∙ length-append before suffix in
      let fits : length suffix ≤ length str = omega (arith, size) in
      let off : length str - length suffix ≡ length before = omega (arith, size) in
      rw (le→ltb (length str) (length suffix) fits) (
        Agree-suffix_from str suffix fits (length suffix) (omega arith) (λ j below.
          sym (get_or-append_right before suffix j)
          ∙ ap₂ (λ l k. get_or l (k + j) 0) (sym whole) (sym off))),
)
