-- ===== src/Sha1/Digest.antt =====
-- The hash of a message against FIPS 180-4.
use bite_bit_bitten.Common.{
  ℕ, zero, suc, ◌+◌, ◌*◌, ◌/◌, ◌%◌, ◌^◌, ◌<◌, ◌≡◌, refl, sym, ap, ◌∙◌, ◌≢◌, List, [], ◌∷◌, arith,
  length, get_or, take, drop, take-nil,
}
use bite_bit_bitten.Sha1.{
  State, initial_state, block_words, compress_blocks, hash_blocks, state_bytes, sha1_hash,
}
use bite_bit_bitten.Sha1.Padding.{fips_padding, sha1_padding-fips}

-- the message's blocks of 64 bytes
abbrev pub chunks : ℕ → List ℕ → List (List ℕ)
chunks zero buffer = []
chunks (suc n) buffer = take 64 buffer ∷ chunks n (drop 64 buffer)

-- The standard: each block of the padded message is mixed into the state in turn.
abbrev pub mix_all : List (List ℕ) → State → State
mix_all [] s = s
mix_all (block ∷ blocks) s = mix_all blocks (compress_blocks block s)

abbrev pub fips_hash : List ℕ → List ℕ
fips_hash message =
    let padded = fips_padding message in
    state_bytes (mix_all (chunks (length padded / 64) padded) initial_state)

get_or-take : (n : ℕ) (xs : List ℕ) (i : ℕ) → i < n → get_or (take n xs) i 0 ≡ get_or xs i 0
get_or-take zero xs i h = absurd (omega arith)
get_or-take (suc n) [] i h = refl
get_or-take (suc n) (x ∷ xs) zero h = refl
get_or-take (suc n) (x ∷ xs) (suc i) h = get_or-take n xs i (omega arith)

drop-take : (m n : ℕ) (xs : List ℕ) → drop m (take (m + n) xs) ≡ take n (drop m xs)
drop-take zero n xs = ap (λ k. take k xs) (omega arith)
drop-take (suc m) n [] = let e : suc m + n ≡ suc (m + n) = omega arith in rw e (sym (take-nil n))
drop-take (suc m) n (x ∷ xs) =
    let e : suc m + n ≡ suc (m + n) = omega arith in rw e (drop-take m n xs)

-- The compression reads no byte behind the 64 of its block.
block_words-take : (n : ℕ) (xs : List ℕ) → block_words n (take (4 * n) xs) ≡ block_words n xs
unfolding block_words
block_words-take zero xs = refl
block_words-take (suc n) xs =
    let e : 4 * suc n ≡ 4 + 4 * n = omega arith in
    rw (
      e,
      get_or-take (4 + 4 * n) xs 0 (omega arith),
      get_or-take (4 + 4 * n) xs 1 (omega arith),
      get_or-take (4 + 4 * n) xs 2 (omega arith),
      get_or-take (4 + 4 * n) xs 3 (omega arith),
      drop-take 4 (4 * n) xs,
      block_words-take n (drop 4 xs),
    )

compress_blocks-take :
    (xs : List ℕ) (s : State) → compress_blocks (take 64 xs) s ≡ compress_blocks xs s
unfolding compress_blocks
compress_blocks-take xs s = rw (block_words-take 16 xs)

hash_blocks-mix_all :
    (n : ℕ) (buffer : List ℕ) (s : State) → hash_blocks n buffer s ≡ mix_all (chunks n buffer) s
unfolding hash_blocks
hash_blocks-mix_all zero buffer s = refl
hash_blocks-mix_all (suc n) buffer s =
    hash_blocks-mix_all n (drop 64 buffer) (compress_blocks buffer s)
    ∙ ap (mix_all (chunks n (drop 64 buffer))) (sym (compress_blocks-take buffer s))

-- `SHA1_hash` mixes the blocks of the standard's padding in turn, each cut off from what follows, for
-- every message shorter than 2 ^ 61 bytes whose length is not 55 more than a multiple of 64.
pub sha1_hash-fips :
    (message : List ℕ)
    → length message < 2 ^ 61
    → length message % 64 ≢ 55
    → sha1_hash message ≡ fips_hash message
unfolding sha1_hash
sha1_hash-fips message small ne = rw (sha1_padding-fips message small ne) (
    ap state_bytes (
      hash_blocks-mix_all (length (fips_padding message) / 64) (fips_padding message)
        initial_state))
