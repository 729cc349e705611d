-- ===== src/Arena/Copy.antt =====
-- The string copies of an arena.
use bite_bit_bitten.Common.{
  ℕ, zero, suc, ◌+◌, ◌^◌, ◌≤◌, ◌<◌, ◌≡◌, refl, sym, ap, ap₂, ◌∙◌, List, [], ◌∷◌, ◌++◌, arith,
  length, length-append,
}
use mathlib.Core.Path.{subst₂}
use bite_bit_bitten.Common.Outcome.{ok, >>=-eq-ok}
use bite_bit_bitten.Arena.{Arena, memcpy, arena_push, arena_push_strn, arena_push_str}
use bite_bit_bitten.Arena.Push.{IsValid, Pushed, arena_push-Pushed}

-- `n` bytes from offset `p`
abbrev pub read_bytes : (ℕ → ℕ) → ℕ → ℕ → List ℕ
read_bytes m p zero = []
read_bytes m p (suc n) = m p ∷ read_bytes m (p + 1) n

memcpy-below : (m : ℕ → ℕ) (p : ℕ) (xs : List ℕ) (i : ℕ) → i < p → memcpy m p xs i ≡ m i
unfolding memcpy
memcpy-below m p [] i h = refl
memcpy-below m p (x ∷ xs) i h = ground (arith, memcpy-below m (p + 1) xs i)

memcpy-above : (m : ℕ → ℕ) (p : ℕ) (xs : List ℕ) (i : ℕ) → p + length xs ≤ i → memcpy m p xs i ≡ m i
unfolding memcpy
memcpy-above m p [] i h = refl
memcpy-above m p (x ∷ xs) i h = ground (arith, memcpy-above m (p + 1) xs i)

read_bytes_cong :
    (m m' : ℕ → ℕ) (p n : ℕ)
    → ((i : ℕ) → p ≤ i → i < p + n → m i ≡ m' i)
    → read_bytes m p n ≡ read_bytes m' p n
read_bytes_cong m m' p zero h = refl
read_bytes_cong m m' p (suc n) h =
    ap₂ ◌∷◌ (h p (omega arith) (omega arith))
      (read_bytes_cong m m' (p + 1) n (λ i lo hi. h i (omega arith) (omega arith)))

read_bytes-memcpy :
    (m : ℕ → ℕ) (p : ℕ) (xs : List ℕ) → read_bytes (memcpy m p xs) p (length xs) ≡ xs
unfolding memcpy
read_bytes-memcpy m p [] = refl
read_bytes-memcpy m p (x ∷ xs) = ap₂ ◌∷◌ (ground arith) (
    read_bytes_cong (memcpy m p (x ∷ xs)) (memcpy m (p + 1) xs) (p + 1) (length xs)
      (λ i lo hi. ground arith)
    ∙ read_bytes-memcpy m (p + 1) xs)

read_bytes-append :
    (m : ℕ → ℕ) (p n k : ℕ) → read_bytes m p (n + k) ≡ read_bytes m p n ++ read_bytes m (p + n) k
read_bytes-append m p zero k =
    let e : 0 + k ≡ k = omega arith in let f : p + 0 ≡ p = omega arith in rw (e, f)
read_bytes-append m p (suc n) k =
    let e : suc n + k ≡ suc (n + k) = omega arith in
    let f : p + suc n ≡ p + 1 + n = omega arith in
    rw (e, f) (ap (λ l. m p ∷ l) (read_bytes-append m (p + 1) n k))

-- What the two string copies have in common: the block holds `text` and then a NUL, and the bytes
-- that were in use before are left alone.
pub record Stored (a : Arena) (text : List ℕ) (ptr : ℕ) (b : Arena) : Type 0 where
  pub valid : IsValid b
  pub text_at : read_bytes b.bytes ptr (length text + 1) ≡ text ++ (0 ∷ [])
  pub frame : (i : ℕ) → i < a.used → b.bytes i ≡ a.bytes i

Pushed-Stored :
    {a b : Arena} {ptr : ℕ} (text : List ℕ) (m : ℕ → ℕ)
    → Pushed a (length text + 1) ptr b
    → read_bytes m ptr (length text + 1) ≡ text ++ (0 ∷ [])
    → ((i : ℕ) → i < ptr → m i ≡ b.bytes i)
    → Stored a text ptr (record b { bytes = m })
Pushed-Stored {a} {b} {ptr} text m p at below = record {
  valid = omega (arith, p.valid);
  text_at = at;
  frame = λ i h. below i (omega (arith, p.above)) ∙ ap (λ (f : ℕ → ℕ). f i) p.same_bytes;
}

-- `arena_push_strn` stores the given bytes and a NUL behind them in a new block, and changes no
-- byte in use.
pub arena_push_strn_lem :
    {a b : Arena} {ptr : ℕ} (src : List ℕ)
    → IsValid a
    → length src + 1 < 2 ^ 62
    → arena_push_strn a src ≡ ok (ptr, b)
    → Stored a src ptr b
unfolding arena_push_strn
arena_push_strn_lem {a} {b} {ptr} src v small e =
    let push = >>=-eq-ok (arena_push a (length src + 1)) _ e in
    let start = push.0.0 in
    let copied = memcpy push.0.1.bytes start src in
    let stored = memcpy copied (start + length src) (0 ∷ []) in
    let text =
      ap₂ ◌++◌
        (read_bytes_cong stored copied start (length src)
            (λ i lo hi. memcpy-below copied (start + length src) (0 ∷ []) i hi)
          ∙ read_bytes-memcpy push.0.1.bytes start src)
        (read_bytes-memcpy copied (start + length src) (0 ∷ [])) in
    let pushed = arena_push-Pushed (length src + 1) v small push.1 in
    let below = λ (i : ℕ) (h : i < start).
      memcpy-below copied (start + length src) (0 ∷ []) i (omega arith)
      ∙ memcpy-below push.0.1.bytes start src i h in
    subst₂ (λ p c. Stored a src p c) (cc push.2) (cc push.2)
      (Pushed-Stored src stored pushed (read_bytes-append stored start (length src) 1 ∙ text) below)

-- `arena_push_str` does the same for a whole C string.
pub arena_push_str_lem :
    {a b : Arena} {ptr : ℕ} (cstr : List ℕ)
    → IsValid a
    → length cstr + 1 < 2 ^ 62
    → arena_push_str a cstr ≡ ok (ptr, b)
    → Stored a cstr ptr b
unfolding arena_push_str
arena_push_str_lem {a} {b} {ptr} cstr v small e =
    let push = >>=-eq-ok (arena_push a (length cstr + 1)) _ e in
    let start = push.0.0 in
    let text = cstr ++ (0 ∷ []) in
    let stored = memcpy push.0.1.bytes start text in
    let text_at =
      ap (read_bytes stored start) (sym (length-append cstr (0 ∷ [])))
      ∙ read_bytes-memcpy push.0.1.bytes start text in
    let pushed = arena_push-Pushed (length cstr + 1) v small push.1 in
    subst₂ (λ p c. Stored a cstr p c) (cc push.2) (cc push.2)
      (Pushed-Stored cstr stored pushed text_at (memcpy-below push.0.1.bytes start text))
