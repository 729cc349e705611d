-- ===== src/Resume/ReadBack.antt =====
-- `read_all` of resume/resume.c: a `read` that gives only a part is repeated.
use bite_bit_bitten.Common.{
  ℕ, zero, suc, ◌+◌, ◌-◌, ◌≤◌, ◌<◌, ◌≡◌, refl, sym, ap, ap₂, ◌∙◌, true, false, List, [], ◌∷◌, ◌++◌,
  append_assoc, append-nil, arith, ◌==◌, le→leb, ==_iff, length, take, drop, length-append,
  length-take, length-drop, drop-append, take-append, take-append-drop, drop-drop, take-add,
}
use bite_bit_bitten.Common.Outcome.{ok}
use bite_bit_bitten.Resume.{read_loop, read_all}

-- `read` gives no more than the file holds or the room takes, and something while there are both.
abbrev pub Gives : (List ℕ → ℕ → ℕ) → Type 0
Gives read =
    (input : List ℕ) (len : ℕ)
    → (read input len ≤ length input)
      × (read input len ≤ len)
      × (0 < length input → 0 < len → 0 < read input len)

module _ (read : List ℕ → ℕ → ℕ) (gives : Gives read) where
  read_loop_lem :
      (fuel : ℕ) (input : List ℕ) (len : ℕ) (got : List ℕ)
      → len ≤ fuel
      → len ≤ length input
      → read_loop read fuel input len got ≡ ok (true, got ++ take len input, drop len input)
  unfolding read_loop
  read_loop_lem fuel input zero got h enough = ap (λ l. ok (true, l, input)) (sym (append-nil got))
  read_loop_lem zero input (suc len) got h enough = absurd (omega arith)
  read_loop_lem (suc fuel) input (suc len) got h enough =
      let n = read input (suc len) in
      let law = gives input (suc len) in
      let some_read : 0 < n = law.2 (omega arith) (omega arith) in
      let progress : (n == 0) ≡ false = ground (arith, some_read) in
      let left : suc len - n ≤ length (drop n input) = omega (arith, length-drop n input, law.1) in
      let all : n + (suc len - n) ≡ suc len = omega (arith, law.1) in
      let bytes : (got ++ take n input) ++ take (suc len - n) (drop n input)
          ≡ got ++ take (suc len) input =
        append_assoc got (take n input) (take (suc len - n) (drop n input))
        ∙ ap (λ l. got ++ l) (sym (take-add n (suc len - n) input) ∙ ap (λ m. take m input) all) in
      let rest : drop (suc len - n) (drop n input) ≡ drop (suc len) input =
        drop-drop (suc len - n) n input ∙ ap (λ m. drop m input) all in
      rw progress (
        read_loop_lem fuel (drop n input) (suc len - n) (got ++ take n input) (omega arith) left
        ∙ ap₂ (λ a b. ok (true, a, b)) bytes rest)

  -- an input that ends too early
  read_loop-short :
      (fuel : ℕ) (input : List ℕ) (len : ℕ) (got : List ℕ)
      → len ≤ fuel
      → length input < len
      → read_loop read fuel input len got ≡ ok (false, got ++ input, [])
  unfolding read_loop
  read_loop-short fuel input zero got h early = absurd (omega arith)
  read_loop-short zero input (suc len) got h early = absurd (omega arith)
  read_loop-short (suc fuel) [] (suc len) got h early =
      let nothing : (read [] (suc len) == 0) ≡ true =
        (==_iff (read [] (suc len)) 0).1 (omega (arith, gives [] (suc len))) in
      rw nothing (ap (λ l. ok (false, l, [])) (sym (append-nil got)))
  read_loop-short (suc fuel) (b ∷ input) (suc len) got h early =
      let n = read (b ∷ input) (suc len) in
      let law = gives (b ∷ input) (suc len) in
      let some_read : 0 < n = law.2 (omega arith) (omega arith) in
      let progress : (n == 0) ≡ false = ground (arith, some_read) in
      let left : length (drop n (b ∷ input)) < suc len - n =
        omega (arith, length-drop n (b ∷ input), law.0) in
      let bytes : (got ++ take n (b ∷ input)) ++ drop n (b ∷ input) ≡ got ++ b ∷ input =
        append_assoc got (take n (b ∷ input)) (drop n (b ∷ input))
        ∙ ap (λ l. got ++ l) (take-append-drop n (b ∷ input)) in
      rw progress (
        read_loop-short fuel (drop n (b ∷ input)) (suc len - n) (got ++ take n (b ∷ input))
          (omega arith) left
        ∙ ap (λ l. ok (false, l, [])) bytes)

  read_all_lem :
      (input buf : List ℕ) (len : ℕ)
      → len ≤ length input
      → len ≤ length buf
      → read_all read input buf len ≡ ok (true, take len input ++ drop len buf, drop len input)
  unfolding read_all
  read_all_lem input buf len enough room =
      let count : length (take len input) ≡ len = omega (arith, length-take len input) in
      rw (read_loop_lem len input len [] (omega arith) enough, count, le→leb len (length buf) room)
        refl

  pub read_all_append :
      (bytes rest buf : List ℕ)
      → length bytes ≤ length buf
      → read_all read (bytes ++ rest) buf (length bytes)
        ≡ ok (true, bytes ++ drop (length bytes) buf, rest)
  read_all_append bytes rest buf room =
      read_all_lem (bytes ++ rest) buf (length bytes) (omega (arith, length-append bytes rest)) room
      ∙ ap₂ (λ a b. ok (true, a ++ drop (length bytes) buf, b)) (take-append bytes rest)
          (drop-append bytes rest)

  pub read_all-short :
      (input buf : List ℕ) (len : ℕ)
      → length input < len
      → length input ≤ length buf
      → read_all read input buf len ≡ ok (false, input ++ drop (length input) buf, [])
  unfolding read_all
  read_all-short input buf len early room =
      rw
        (
          read_loop-short len input len [] (omega arith) early,
          le→leb (length input) (length buf) room,
        )
        refl
