-- ===== src/Common/Takes.antt =====
-- Initial segments of lists, and what holds at each place of one.
use Prim.Native.Nat.{ℕ, zero, suc, ◌+◌, ◌≤◌, ◌<◌}
use mathlib.Core.Path.{◌≡◌, refl, sym, ap, ◌∙◌, subst}
use mathlib.Core.Logic.{◌≢◌, ◌⊎◌, inl, inr}
use mathlib.Core.Option.{none, some}
use mathlib.Core.List.{List, [], ◌∷◌, ◌++◌}
use native.Mathlib.Omega.{arith}
use bite_bit_bitten.Common.Lists.{length, get_elem?, set, take, drop, take-nil, All}

pub take-add {ℓ} :
    {A : Type ℓ} (n k : ℕ) (xs : List A) → take (n + k) xs ≡ take n xs ++ take k (drop n xs)
take-add zero k xs = ap (λ m. take m xs) (omega arith)
take-add (suc n) k [] = take-nil (suc n + k) ∙ sym (take-nil k)
take-add (suc n) k (x ∷ xs) =
    let e : suc n + k ≡ suc (n + k) = omega arith in rw e (ap (λ l. x ∷ l) (take-add n k xs))

pub take_all {ℓ} : {A : Type ℓ} (n : ℕ) (xs : List A) → length xs ≤ n → take n xs ≡ xs
take_all zero [] h = refl
take_all zero (x ∷ xs) h = absurd (omega arith)
take_all (suc n) [] h = refl
take_all (suc n) (x ∷ xs) h = ap (λ l. x ∷ l) (take_all n xs (omega arith))

pub drop_all {ℓ} : {A : Type ℓ} (n : ℕ) (xs : List A) → length xs ≤ n → drop n xs ≡ []
drop_all zero [] h = refl
drop_all zero (x ∷ xs) h = absurd (omega arith)
drop_all (suc n) [] h = refl
drop_all (suc n) (x ∷ xs) h = drop_all n xs (omega arith)

pub past_the_end {ℓ} : {A : Type ℓ} (xs : List A) (i : ℕ) → length xs ≤ i → get_elem? xs i ≡ none
past_the_end [] i h = refl
past_the_end (x ∷ xs) zero h = absurd (omega arith)
past_the_end (x ∷ xs) (suc i) h = past_the_end xs i (omega arith)

pub in_range {ℓ} : {A : Type ℓ} (xs : List A) (i : ℕ) → i < length xs → get_elem? xs i ≢ none
in_range [] i h e = omega arith
in_range (x ∷ xs) zero h e = cc
in_range (x ∷ xs) (suc i) h e = in_range xs i (omega arith) e

pub present {ℓ} :
    {A : Type ℓ} (xs : List A) (i : ℕ) → i < length xs → (x : A) × (get_elem? xs i ≡ some x)
present [] i h = absurd (omega arith)
present (x ∷ xs) zero h = (x, refl)
present (x ∷ xs) (suc i) h = present xs i (omega arith)

pub take_next {ℓ} :
    {A : Type ℓ} (xs : List A) (n : ℕ) (x : A)
    → get_elem? xs n ≡ some x
    → take (n + 1) xs ≡ take n xs ++ x ∷ []
take_next [] n x h = cc
take_next (y ∷ xs) zero x h = let e : y ≡ x = cc in ap (λ a. a ∷ []) e
take_next (y ∷ xs) (suc n) x h =
    let e : suc n + 1 ≡ suc (n + 1) = omega arith in rw e (ap (λ l. y ∷ l) (take_next xs n x h))

pub All-get_elem? {ℓ κ} :
    {A : Type ℓ} (P : A → Type κ) (xs : List A) (i : ℕ) (x : A)
    → All P xs
    → get_elem? xs i ≡ some x
    → P x
All-get_elem? P [] i x h e = cc
All-get_elem? P (y ∷ xs) zero x h e = let same : y ≡ x = cc in subst P same h.0
All-get_elem? P (y ∷ xs) (suc i) x h e = All-get_elem? P xs i x h.1 e

pub All-take {ℓ κ} :
    {A : Type ℓ} (P : A → Type κ) (n : ℕ) (xs : List A) → All P xs → All P (take n xs)
All-take P zero xs h = tt
All-take P (suc n) [] h = tt
All-take P (suc n) (x ∷ xs) h = (h.0, All-take P n xs h.1)

pub set-set {ℓ} : {A : Type ℓ} (xs : List A) (i : ℕ) (x y : A) → set (set xs i x) i y ≡ set xs i y
set-set [] i x y = refl
set-set (z ∷ xs) zero x y = refl
set-set (z ∷ xs) (suc i) x y = ap (λ l. z ∷ l) (set-set xs i x y)

pub lt_of_get_elem? {ℓ} :
    {A : Type ℓ} (xs : List A) (i : ℕ) (x : A) → get_elem? xs i ≡ some x → i < length xs
lt_of_get_elem? [] i x h = cc
lt_of_get_elem? (y ∷ xs) zero x h = omega arith
lt_of_get_elem? (y ∷ xs) (suc i) x h = omega (arith, lt_of_get_elem? xs i x h)

pub get_elem?-of_take {ℓ} :
    {A : Type ℓ} (xs : List A) (n i : ℕ) (x : A)
    → get_elem? (take n xs) i ≡ some x
    → (i < n) × (get_elem? xs i ≡ some x)
get_elem?-of_take xs zero i x h = cc
get_elem?-of_take [] (suc n) i x h = cc
get_elem?-of_take (y ∷ xs) (suc n) zero x h = (omega arith, h)
get_elem?-of_take (y ∷ xs) (suc n) (suc i) x h =
    let rest = get_elem?-of_take xs n i x h in (omega (arith, rest.0), rest.1)

pub get_elem?-snoc {ℓ} :
    {A : Type ℓ} (xs : List A) (y : A) (i : ℕ) (x : A)
    → get_elem? (xs ++ y ∷ []) i ≡ some x
    → (get_elem? xs i ≡ some x) ⊎ ((i ≡ length xs) × (x ≡ y))
get_elem?-snoc [] y zero x h = let e : x ≡ y = cc in inr (refl, e)
get_elem?-snoc [] y (suc i) x h = cc
get_elem?-snoc (z ∷ xs) y zero x h = inl h
get_elem?-snoc (z ∷ xs) y (suc i) x h = elim (get_elem?-snoc xs y i x h) [
  | inl old ↦ inl old
  | inr new ↦ inr (ap suc new.0, new.1)
]
