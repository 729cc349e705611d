-- ===== src/Arena/Blocks.antt =====
-- A run of pushes on one arena.
use bite_bit_bitten.Common.{ℕ, ◌+◌, ◌%◌, ◌^◌, ◌≤◌, ◌<◌, ◌≡◌, Option, List, [], ◌∷◌, map, arith, All}
use bite_bit_bitten.Common.Outcome.{Outcome, ok, ◌>>=◌, >>=-eq-ok}
use bite_bit_bitten.Arena.{Arena, arena_push, arena_create}
use bite_bit_bitten.Arena.Push.{IsValid, arena_push-Pushed, arena_create-IsValid}

-- the calls of `arena_push` in order; a block is its offset and size
unfoldable pub push_all : Arena → List ℕ → Outcome (List (ℕ × ℕ) × Arena)
push_all a [] = ok ([], a)
push_all a (n ∷ ns) =
    arena_push a n >>= λ (p, b). push_all b ns >>= λ (blocks, c). ok ((p, n) ∷ blocks, c)

-- Every block is aligned, begins where the one before it has ended or later, and all end by `top`.
abbrev pub Stacked : ℕ → ℕ → List (ℕ × ℕ) → Type 0
Stacked floor top [] = floor ≤ top
Stacked floor top ((p, n) ∷ blocks) = (floor ≤ p) × (p % 16 ≡ 0) × Stacked (p + n) top blocks

push_all-Stacked :
    (sizes : List ℕ) {a c : Arena} {blocks : List (ℕ × ℕ)}
    → IsValid a
    → All (λ n. n < 2 ^ 62) sizes
    → push_all a sizes ≡ ok (blocks, c)
    → Stacked a.used c.used blocks × IsValid c × (map (λ b. b.1) blocks ≡ sizes)
unfolding push_all
push_all-Stacked [] v small e = ground arith
push_all-Stacked (n ∷ ns) {a} {c} {blocks} v small e =
    let first = >>=-eq-ok (arena_push a n) _ e in
    let rest = >>=-eq-ok (push_all first.0.1 ns) _ first.2 in
    let pushed = arena_push-Pushed n v small.0 first.1 in
    let ih = push_all-Stacked ns pushed.valid small.1 rest.1 in ground arith

Stacked-le :
    (floor top top' : ℕ) (blocks : List (ℕ × ℕ))
    → top ≤ top'
    → Stacked floor top blocks
    → Stacked floor top' blocks
Stacked-le floor top top' [] h s = omega arith
Stacked-le floor top top' ((p, n) ∷ blocks) h s =
    (s.0, s.1, Stacked-le (p + n) top top' blocks h s.2)

-- Blocks of less than 2 ^ 62 bytes each, pushed on a fresh arena that reserves less than that, never
-- overlap: each is aligned and begins at or after the end of
-- the one before it, each has the size that was asked for, and all lie in the committed memory.
pub push_all_lem :
    (mmap : ℕ → Option ℕ) (reserved : ℕ) (sizes : List ℕ) {c : Arena} {blocks : List (ℕ × ℕ)}
    → reserved < 2 ^ 62
    → All (λ n. n < 2 ^ 62) sizes
    → push_all (arena_create mmap reserved) sizes ≡ ok (blocks, c)
    → Stacked 0 c.commited blocks × (map (λ b. b.1) blocks ≡ sizes)
unfolding arena_create
push_all_lem mmap reserved sizes {c} {blocks} r small e =
    let run = push_all-Stacked sizes (arena_create-IsValid mmap reserved r) small e in
    (Stacked-le 0 c.used c.commited blocks run.1.in_commited run.0, run.2)
