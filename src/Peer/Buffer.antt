-- ===== src/Peer/Buffer.antt =====
-- What a write into the buffer of a piece leaves in it.
use bite_bit_bitten.Common.{
  ℕ, zero, suc, ◌+◌, ◌-◌, ◌≤◌, ◌<◌, ◌≡◌, refl, sym, ap, ap₂, ◌∙◌, ◌⊎◌, inl, inr, List, [], ◌∷◌,
  ◌++◌, arith, le→leb, length, get_elem?, take, drop, length-append, length-take, length-drop,
  get_elem?-append_right,
}
use bite_bit_bitten.Common.Outcome.{ok}
use bite_bit_bitten.Peer.Message.{overwrite}

get_elem?-before :
    (xs ys : List ℕ) (i : ℕ) → i < length xs → get_elem? (xs ++ ys) i ≡ get_elem? xs i
get_elem?-before [] ys i h = absurd (omega arith)
get_elem?-before (x ∷ xs) ys zero h = refl
get_elem?-before (x ∷ xs) ys (suc i) h = get_elem?-before xs ys i (omega arith)

pub get_elem?-take : (n i : ℕ) (xs : List ℕ) → i < n → get_elem? (take n xs) i ≡ get_elem? xs i
get_elem?-take zero i xs h = absurd (omega arith)
get_elem?-take (suc n) i [] h = refl
get_elem?-take (suc n) zero (x ∷ xs) h = refl
get_elem?-take (suc n) (suc i) (x ∷ xs) h = get_elem?-take n i xs (omega arith)

pub get_elem?-dropped : (n i : ℕ) (xs : List ℕ) → get_elem? (drop n xs) i ≡ get_elem? xs (n + i)
get_elem?-dropped zero i xs = ap (get_elem? xs) (omega arith)
get_elem?-dropped (suc n) i [] = refl
get_elem?-dropped (suc n) i (x ∷ xs) =
    let e : suc n + i ≡ suc (n + i) = omega arith in rw e (get_elem?-dropped n i xs)

pub get_elem?-ext :
    (n : ℕ) (xs ys : List ℕ)
    → length ys ≡ n
    → ((i : ℕ) → i < n → get_elem? xs i ≡ get_elem? ys i)
    → take n xs ≡ ys
get_elem?-ext zero xs [] size same = refl
get_elem?-ext zero xs (y ∷ ys) size same = absurd (omega arith)
get_elem?-ext (suc n) xs [] size same = absurd (omega arith)
get_elem?-ext (suc n) [] (y ∷ ys) size same = let e = same 0 (omega arith) in cc
get_elem?-ext (suc n) (x ∷ xs) (y ∷ ys) size same =
    let first : x ≡ y = cc (same 0 (omega arith)) in
    ap₂ ◌∷◌ first (get_elem?-ext n xs ys (omega arith) (λ i h. same (suc i) (omega arith)))

-- A write that fits succeeds: inside of its range the buffer reads as what was written, elsewhere as
-- before, and its length is the same.
pub overwrite_lem :
    (buf : List ℕ) (offset : ℕ) (bytes : List ℕ)
    → offset + length bytes ≤ length buf
    → (buf' : List ℕ) × (overwrite buf offset bytes ≡ ok buf')
      × (length buf' ≡ length buf)
      × ((i : ℕ) → i < length bytes → get_elem? buf' (offset + i) ≡ get_elem? bytes i)
      × ((i : ℕ) → (i < offset) ⊎ (offset + length bytes ≤ i) → get_elem? buf' i ≡ get_elem? buf i)
overwrite_lem buf offset bytes fits =
    let head = take offset buf in
    let tail = drop (offset + length bytes) buf in
    let head_size : length head ≡ offset = omega (arith, length-take offset buf) in
    let tail_size = length-drop (offset + length bytes) buf in
    (
      head ++ (bytes ++ tail),
      rw (le→leb _ _ fits) refl,
      omega (
        arith,
        length-append head (bytes ++ tail),
        length-append bytes tail,
        head_size,
        tail_size,
      ),
      λ i inside.
          ap (λ n. get_elem? (head ++ (bytes ++ tail)) (n + i)) (sym head_size)
          ∙ get_elem?-append_right head (bytes ++ tail) i
          ∙ get_elem?-before bytes tail i inside,
      λ i outside. elim outside [
        | inl below ↦
            get_elem?-before head (bytes ++ tail) i (omega (arith, head_size))
            ∙ get_elem?-take offset i buf below
        | inr above ↦
            let place : i ≡ length head + (length bytes + (i - (offset + length bytes))) =
              omega (arith, head_size) in
            let back : offset + length bytes + (i - (offset + length bytes)) ≡ i = omega arith in
            ap (get_elem? (head ++ (bytes ++ tail))) place
            ∙ get_elem?-append_right head (bytes ++ tail)
                (length bytes + (i - (offset + length bytes)))
            ∙ get_elem?-append_right bytes tail (i - (offset + length bytes))
            ∙ get_elem?-dropped (offset + length bytes) (i - (offset + length bytes)) buf
            ∙ ap (get_elem? buf) back
      ],
    )
