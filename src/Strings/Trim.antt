-- ===== src/Strings/Trim.antt =====
-- `trim_spaces` of utils/str_utils.c takes off the white space at both ends, and no more.
use bite_bit_bitten.Common.{
  ℕ, zero, suc, ◌+◌, ◌-◌, ◌≤◌, ◌<◌, ◌≡◌, refl, sym, ap, ◌∙◌, subst, ◌⊎◌, inl, inr, true, false,
  List, [], ◌∷◌, ◌++◌, arith, ◌==◌, ==_iff, Bool-cases, length, get_or, take, drop, All,
  length-take, length-drop, take-append-drop,
}
use bite_bit_bitten.Bencode.Strtol.{is_space}
use bite_bit_bitten.Strings.{skip_spaces, last_kept, trim_spaces}
use bite_bit_bitten.Strings.Suffix.{get_or-drop}

abbrev pub IsSpace : ℕ → Type 0
IsSpace b = is_space b ≡ true

skip_spaces_lem :
    (str : List ℕ)
    → (lead : List ℕ) × (str ≡ lead ++ skip_spaces str)
      × All IsSpace lead
      × (0 < length (skip_spaces str) → is_space (get_or (skip_spaces str) 0 0) ≡ false)
skip_spaces_lem [] = ([], refl, tt, λ h. absurd (omega arith))
skip_spaces_lem (b ∷ str) = elim (Bool-cases (is_space b)) [
  | inl space ↦
      let rest = skip_spaces_lem str in
      (b ∷ rest.0, rw space (ap (λ l. b ∷ l) rest.1), (space, rest.2), rw space rest.3)
  | inr other ↦ ([], rw other refl, tt, rw other (λ h. other))
]

last_kept_lem :
    (str : List ℕ) (i : ℕ)
    → (last_kept str i ≤ i)
      × ((j : ℕ) → last_kept str i < j → j ≤ i → IsSpace (get_or str j 0))
      × (0 < last_kept str i → is_space (get_or str (last_kept str i) 0) ≡ false)
last_kept_lem str zero = (omega arith, λ j a b. absurd (omega arith), λ h. absurd (omega arith))
last_kept_lem str (suc i) = elim (Bool-cases (is_space (get_or str (suc i) 0))) [
  | inl space ↦
      let rest = last_kept_lem str i in
      (
        rw space (omega (arith, rest.0)),
        rw space (λ j a b. elim (Bool-cases (j == suc i)) [
          | inl same ↦ subst (λ k. IsSpace (get_or str k 0)) (sym ((==_iff j (suc i)).0 same)) space
          | inr other ↦ rest.1 j a (ground (arith, b, other))
        ]),
        rw space rest.2,
      )
  | inr kept ↦ (rw kept (omega arith), rw kept (λ j a b. absurd (omega arith)), rw kept (λ h. kept))
]

All-places : (xs : List ℕ) → ((j : ℕ) → j < length xs → IsSpace (get_or xs j 0)) → All IsSpace xs
All-places [] h = tt
All-places (x ∷ xs) h = (h 0 (omega arith), All-places xs (λ j below. h (suc j) (omega arith)))

get_or-take : (xs : List ℕ) (n i : ℕ) → i < n → get_or (take n xs) i 0 ≡ get_or xs i 0
get_or-take xs zero i h = absurd (omega arith)
get_or-take [] (suc n) i h = refl
get_or-take (x ∷ xs) (suc n) zero h = refl
get_or-take (x ∷ xs) (suc n) (suc i) h = get_or-take xs n i (omega arith)

empty_of : (xs : List ℕ) → length xs ≡ 0 → xs ≡ []
empty_of [] h = refl
empty_of (x ∷ xs) h = absurd (omega (arith, h))

last_one :
    (xs : List ℕ) (k : ℕ)
    → is_space (get_or xs 0 0) ≡ false
    → (0 < k → is_space (get_or xs k 0) ≡ false)
    → is_space (get_or xs k 0) ≡ false
last_one xs zero first later = first
last_one xs (suc k) first later = later (omega arith)

-- A string is white space, what `trim_spaces` leaves of it, and white space again; what it leaves is
-- empty, or neither begins nor ends with white space.
pub trim_spaces_lem :
    (str : List ℕ)
    → (lead trail : List ℕ) × (str ≡ lead ++ (trim_spaces str ++ trail))
      × All IsSpace lead
      × All IsSpace trail
      × ((trim_spaces str ≡ [])
          ⊎ ((is_space (get_or (trim_spaces str) 0 0) ≡ false)
              × (is_space (get_or (trim_spaces str) (length (trim_spaces str) - 1) 0) ≡ false)))
unfolding trim_spaces
trim_spaces_lem str =
    let front = skip_spaces_lem str in
    let start = skip_spaces str in
    let k = last_kept start (length start - 1) in
    let back = last_kept_lem start (length start - 1) in
    elim (Bool-cases (length start == 0)) [
      | inl empty ↦
          let none_left : start ≡ [] = empty_of start ((==_iff (length start) 0).0 empty) in
          (
            front.0,
            [],
            rw empty (front.1 ∙ ap (λ l. front.0 ++ l) none_left),
            front.2,
            tt,
            inl (rw empty refl),
          )
      | inr more ↦
          let some_left : 0 < length start = ground (arith, more) in
          let size : length (take (k + 1) start) ≡ k + 1 =
            omega (arith, length-take (k + 1) start, back.0) in
          let end : length (take (k + 1) start) - 1 ≡ k = omega (arith, size) in
          let first_kept = front.3 some_left in
          (
            front.0,
            drop (k + 1) start,
            rw more (front.1 ∙ ap (λ l. front.0 ++ l) (sym (take-append-drop (k + 1) start))),
            front.2,
            All-places (drop (k + 1) start) (λ j below.
                subst IsSpace (get_or-drop start (k + 1) j) (
                  back.1 (k + 1 + j) (omega arith)
                    (omega (arith, below, length-drop (k + 1) start)))),
            inr (
                rw more (
                  ap is_space (get_or-take start (k + 1) 0 (omega arith)) ∙ first_kept,
                  ap (λ n. is_space (get_or (take (k + 1) start) n 0)) end
                      ∙ ap is_space (get_or-take start (k + 1) k (omega arith))
                      ∙ last_one start k first_kept back.2,
                )),
          )
    ]
