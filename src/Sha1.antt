-- ===== src/Sha1.antt =====
-- SHA1/SHA1.c and SHA1/SHA1.h. A message is a list of bytes, a `uint32_t` a number below 2 ^ 32 with
-- its wrap-around written out.
pub mod Padding
pub mod Rotate
pub mod Digest
mod Tests
use bite_bit_bitten.Common.{
  ℕ, zero, suc, ◌+◌, ◌-◌, ◌*◌, ◌/◌, ◌^◌, bit_and, bit_or, bit_xor, u8, u32, u64, ◌<<<◌, ◌>>>◌, List,
  [], ◌∷◌, ◌++◌, length, get_or, drop, replicate, leb, if◌then◌else◌,
}

-- H0 … H4 and the K of SHA1.h
pub record State : Type 0 where
  pub a : ℕ
  pub b : ℕ
  pub c : ℕ
  pub d : ℕ
  pub e : ℕ

abbrev pub initial_state : State
initial_state = record {
  a = 0x67452301;
  b = 0xEFCDAB89;
  c = 0x98BADCFE;
  d = 0x10325476;
  e = 0xC3D2E1F0;
}

abbrev pub k_table : List ℕ
k_table = 0x5A827999 ∷ 0x6ED9EBA1 ∷ 0x8F1BBCDC ∷ 0xCA62C1D6 ∷ []

-- The zeroed buffer of `calloc` with the message, the 0x80 and the length in bits written over it.
-- `calloc` gives the memory it is asked for.
unfoldable pub sha1_padding : List ℕ → List ℕ
sha1_padding message =
    let len = length message in
    let padded_length = ((len + 9) / 64 + 1) * 64 in
    let bits = u64 (len * 8) in
    message
    ++ 0x80
      ∷ (replicate (padded_length - 8 - (len + 1)) 0
          ++ u8 (bits >>> 56)
            ∷ u8 (bits >>> 48)
            ∷ u8 (bits >>> 40)
            ∷ u8 (bits >>> 32)
            ∷ u8 (bits >>> 24)
            ∷ u8 (bits >>> 16)
            ∷ u8 (bits >>> 8)
            ∷ u8 bits
            ∷ [])

-- `(word << n) | (word >> (32 - n))`
unfoldable pub rotate_left : ℕ → ℕ → ℕ
rotate_left word n = bit_or (u32 (word <<< n)) (word >>> (32 - n))

-- `~x` of a `uint32_t`
abbrev pub not32 : ℕ → ℕ
not32 x = 2 ^ 32 - 1 - x

unfoldable pub f_value : ℕ → ℕ → ℕ → ℕ → ℕ
f_value i b c d =
    if leb i 19
    then bit_or (bit_and b c) (bit_and (not32 b) d)
    else if leb i 39
    then bit_xor (bit_xor b c) d
    else if leb i 59
    then bit_or (bit_or (bit_and b c) (bit_and b d)) (bit_and c d)
    else bit_xor (bit_xor b c) d

abbrev pub k_value : ℕ → ℕ
k_value i = get_or k_table (i / 20) 0

-- the first sixteen words, big-endian, of a block
unfoldable pub block_words : ℕ → List ℕ → List ℕ
block_words zero block = []
block_words (suc n) block =
    bit_or
      (bit_or (bit_or (get_or block 0 0 <<< 24) (get_or block 1 0 <<< 16)) (get_or block 2 0 <<< 8))
      (get_or block 3 0)
    ∷ block_words n (drop 4 block)

-- Words `i` to 79, each from four that stand before it.
unfoldable pub expand_words : ℕ → ℕ → List ℕ → List ℕ
unfolding rotate_left
expand_words zero i words = words
expand_words (suc n) i words =
    let word =
      rotate_left
        (bit_xor
          (bit_xor (bit_xor (get_or words (i - 3) 0) (get_or words (i - 8) 0))
            (get_or words (i - 14) 0))
          (get_or words (i - 16) 0))
        1 in
    expand_words n (i + 1) (words ++ word ∷ [])

unfoldable pub round : ℕ → ℕ → State → State
unfolding rotate_left f_value
round i word s = record {
  a = u32 (rotate_left s.a 5 + f_value i s.b s.c s.d + s.e + k_value i + word);
  b = s.a;
  c = rotate_left s.b 30;
  d = s.c;
  e = s.d;
}

-- The rounds from `i` on, one for each word of the list.
unfoldable pub rounds : ℕ → List ℕ → State → State
unfolding round
rounds i [] s = s
rounds i (w ∷ ws) s = rounds (i + 1) ws (round i w s)

unfoldable pub compress_blocks : List ℕ → State → State
compress_blocks block s =
    let t = rounds 0 (expand_words 64 16 (block_words 16 block)) s in
    record {
      a = u32 (s.a + t.a);
      b = u32 (s.b + t.b);
      c = u32 (s.c + t.c);
      d = u32 (s.d + t.d);
      e = u32 (s.e + t.e);
    }

-- `for (i = 0; i < padded_length; i += 64)`, by the number of blocks
unfoldable pub hash_blocks : ℕ → List ℕ → State → State
hash_blocks zero buffer s = s
hash_blocks (suc n) buffer s = hash_blocks n (drop 64 buffer) (compress_blocks buffer s)

abbrev pub word_bytes : ℕ → List ℕ
word_bytes w = u8 (w >>> 24) ∷ u8 (w >>> 16) ∷ u8 (w >>> 8) ∷ u8 w ∷ []

unfoldable pub state_bytes : State → List ℕ
state_bytes s =
    word_bytes s.a ++ (word_bytes s.b ++ (word_bytes s.c ++ (word_bytes s.d ++ word_bytes s.e)))

unfoldable pub sha1_hash : List ℕ → List ℕ
sha1_hash message =
    let padded = sha1_padding message in
    state_bytes (hash_blocks (length padded / 64) padded initial_state)
