-- ===== src/Sha1/Padding.antt =====
-- The padding against that of FIPS 180-4, section 5.1.1.
use bite_bit_bitten.Common.{
  ℕ, zero, suc, ◌+◌, ◌-◌, ◌*◌, ◌/◌, ◌%◌, ◌^◌, ◌≤◌, ◌<◌, ◌≡◌, ap, ◌∙◌, ◌≢◌, List, [], ◌∷◌, ◌++◌,
  arith, ◌==◌, if◌then◌else◌, length, replicate, length-append, length-replicate, u8, u64,
}
use bite_bit_bitten.Sha1.{sha1_padding}

-- `n` written with `w` bytes, the most significant first
abbrev pub big_endian : ℕ → ℕ → List ℕ
big_endian zero n = []
big_endian (suc w) n = u8 (n / 256 ^ w) ∷ big_endian w n

-- The standard: the smallest number of zero bytes that takes the message, the 0x80 and the eight
-- bytes of the length in bits to a whole number of blocks.
abbrev pub zero_bytes : ℕ → ℕ
zero_bytes len = (119 - len % 64) % 64

abbrev pub fips_padding : List ℕ → List ℕ
fips_padding message =
    message
    ++ 0x80 ∷ (replicate (zero_bytes (length message)) 0 ++ big_endian 8 (length message * 8))

-- The code adds a whole block of zeros where the standard needs none.
abbrev pub extra_zeros : ℕ → ℕ
extra_zeros len = if (len + 9) % 64 == 0 then 64 else 0

-- For every message shorter than 2 ^ 61 bytes, the padding is the message, a 0x80, zeros and the
-- length in bits, with exactly the zeros of the standard, and 64 more when the standard's padding
-- would fill its last block exactly.
pub sha1_padding_lem :
    (message : List ℕ)
    → length message < 2 ^ 61
    → let len = length message in
      sha1_padding message
      ≡ message ++ 0x80 ∷ (replicate (zero_bytes len + extra_zeros len) 0 ++ big_endian 8 (len * 8))
unfolding sha1_padding
sha1_padding_lem message small =
    let len = length message in
    let zeros : ((len + 9) / 64 + 1) * 64 - 8 - (len + 1) ≡ zero_bytes len + extra_zeros len =
      ground arith in
    let bits : u64 (len * 8) ≡ len * 8 = omega arith in
    let last : len * 8 % 2 ^ 8 ≡ len * 8 / 256 ^ 0 % 2 ^ 8 = omega arith in rw (zeros, bits, last)

-- A message whose length is not 55 more than a multiple of 64 is padded as the standard says.
pub sha1_padding-fips :
    (message : List ℕ)
    → length message < 2 ^ 61
    → length message % 64 ≢ 55
    → sha1_padding message ≡ fips_padding message
sha1_padding-fips message small ne =
    sha1_padding_lem message small
    ∙ ap (λ n. message ++ 0x80 ∷ (replicate n 0 ++ big_endian 8 (length message * 8)))
        (ground arith)

length-padded :
    (message : List ℕ) (n : ℕ)
    → length (message ++ 0x80 ∷ (replicate n 0 ++ big_endian 8 (length message * 8)))
      ≡ length message + n + 9
length-padded message n = omega (
  arith,
  length-append message (0x80 ∷ (replicate n 0 ++ big_endian 8 (length message * 8))),
  length-append (replicate n 0) (big_endian 8 (length message * 8)),
  length-replicate {A = ℕ} n 0,
)

-- The padded length is a multiple of 64, so the loop over the blocks reads whole blocks only.
pub length-sha1_padding :
    (message : List ℕ)
    → length message < 2 ^ 61
    → (length (sha1_padding message) % 64 ≡ 0)
      × (length message + 9 ≤ length (sha1_padding message))
length-sha1_padding message small = rw (sha1_padding_lem message small) (
    rw (length-padded message (zero_bytes (length message) + extra_zeros (length message)))
      (ground arith))

-- At the other lengths the code hashes one block more than the standard.
pub sha1_padding-too_long :
    (message : List ℕ)
    → length message < 2 ^ 61
    → length message % 64 ≡ 55
    → length (sha1_padding message) ≡ length (fips_padding message) + 64
sha1_padding-too_long message small e = rw (sha1_padding_lem message small) (
    omega (
      arith,
      length-padded message (zero_bytes (length message) + extra_zeros (length message)),
      length-padded message (zero_bytes (length message)),
      one_more,
    ))
  where
    one_more : extra_zeros (length message) ≡ 64
    one_more = ground arith
