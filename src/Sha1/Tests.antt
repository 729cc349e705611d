-- ===== src/Sha1/Tests.antt =====
-- The hash at published inputs.
use bite_bit_bitten.Common.{ℕ, ◌≡◌, refl, List, [], ◌∷◌, arith}
use bite_bit_bitten.Sha1.{
  sha1_padding, sha1_hash, hash_blocks, state_bytes, compress_blocks, block_words, expand_words,
  rounds,
}
use bite_bit_bitten.Sha1.Digest.{fips_hash, sha1_hash-fips}

abbrev abc : List ℕ
abc = b'a' ∷ b'b' ∷ b'c' ∷ []

sha1_hash-fips_example : sha1_hash abc ≡ fips_hash abc
sha1_hash-fips_example = sha1_hash-fips abc (omega arith) (λ e. absurd (omega arith))

abc_hash :
    sha1_hash (b'a' ∷ b'b' ∷ b'c' ∷ [])
    ≡ 0xa9 ∷ 0x99 ∷ 0x3e ∷ 0x36 ∷ 0x47 ∷ 0x06 ∷ 0x81 ∷ 0x6a ∷ 0xba ∷ 0x3e ∷ 0x25 ∷ 0x71 ∷ 0x78
      ∷ 0x50 ∷ 0xc2 ∷ 0x6c ∷ 0x9c ∷ 0xd0 ∷ 0xd8 ∷ 0x9d ∷ []
unfolding sha1_hash sha1_padding hash_blocks state_bytes compress_blocks block_words expand_words
    rounds
abc_hash = refl
