-- ===== src/Bencode/Read.antt =====
-- One step of the parser at a cursor where the bytes are known.
use bite_bit_bitten.Common.{
  ℕ, ◌+◌, ◌^◌, ◌≤◌, ◌<◌, ◌≡◌, refl, sym, ap, ◌∙◌, false, some, List, [], ◌∷◌, ◌++◌, append_assoc,
  arith, lt→ltb, length, drop, length-append, length-drop, drop-append, drop-drop, get_elem?-drop,
  lt_of_drop, u32, ℤ, pos,
}
use bite_bit_bitten.Common.Outcome.{ok}
use bite_bit_bitten.Bencode.{BenValue}
use bite_bit_bitten.Bencode.Strtol.{is_digit, strtol}
use bite_bit_bitten.Bencode.Parser.{
  byte_at, peek, consume, strtol_at, parse_raw_string, parse_string, parse_num,
}
use bite_bit_bitten.Bencode.Tree.{decimal, signed_decimal, encode_string, locate_string, IsInt64}
use bite_bit_bitten.Bencode.Decimal.{strtol-signed_decimal}

-- From `c` on the buffer holds `xs`.
abbrev pub Holds : List ℕ → ℕ → List ℕ → Type 0
Holds buffer c xs = drop c buffer ≡ xs

pub Holds-advance :
    (buffer : List ℕ) (c : ℕ) (xs ys : List ℕ)
    → Holds buffer c (xs ++ ys)
    → Holds buffer (c + length xs) ys
Holds-advance buffer c xs ys h =
    sym (drop-drop (length xs) c buffer) ∙ ap (drop (length xs)) h ∙ drop-append xs ys

pub Holds-next :
    (buffer : List ℕ) (c x : ℕ) (ys : List ℕ) → Holds buffer c (x ∷ ys) → Holds buffer (c + 1) ys
Holds-next buffer c x ys h = Holds-advance buffer c (x ∷ []) ys h

module _ (buffer : List ℕ) (small : length buffer < 2 ^ 31) where
  byte_at_lem : (c x : ℕ) (ys : List ℕ) → Holds buffer c (x ∷ ys) → byte_at buffer c ≡ ok x
  byte_at_lem c x ys h =
      rw (lt→ltb c (2 ^ 31) (omega (arith, lt_of_drop buffer c h))) (rw (get_elem?-drop buffer c h))

  pub peek_lem : (c x : ℕ) (ys : List ℕ) → Holds buffer c (x ∷ ys) → peek buffer c ≡ ok (x, c)
  unfolding peek
  peek_lem c x ys h = rw (byte_at_lem c x ys h)

  pub consume_lem :
      (c x : ℕ) (ys : List ℕ) → Holds buffer c (x ∷ ys) → consume buffer c ≡ ok (x, c + 1)
  unfolding consume
  consume_lem c x ys h =
      let e : u32 (c + 1) ≡ c + 1 = omega (arith, lt_of_drop buffer c h) in
      rw (byte_at_lem c x ys h, e)

  strtol_at_lem :
      (c : ℕ) (ys : List ℕ) {r : ℤ × ℕ}
      → c < 2 ^ 31
      → Holds buffer c ys
      → strtol ys ≡ some r
      → strtol_at buffer c ≡ ok r
  unfolding strtol_at
  strtol_at_lem c ys below h e = rw (lt→ltb c (2 ^ 31) below, h, e)

  -- A number and the byte behind it are in range, and `strtol` reads the number.
  number_lem :
      (c : ℕ) (z : ℤ) (b : ℕ) (rest : List ℕ)
      → IsInt64 z
      → is_digit b ≡ false
      → Holds buffer c (signed_decimal z ++ b ∷ rest)
      → (strtol_at buffer c ≡ ok (z, length (signed_decimal z)))
        × (consume buffer (u32 (c + length (signed_decimal z)))
            ≡ ok (b, c + length (signed_decimal z) + 1))
        × (c + length (signed_decimal z) + 1 ≤ length buffer)
  number_lem c z b rest range e h =
      let next = Holds-advance buffer c (signed_decimal z) (b ∷ rest) h in
      let inside = lt_of_drop buffer (c + length (signed_decimal z)) next in
      let same : u32 (c + length (signed_decimal z)) ≡ c + length (signed_decimal z) =
        omega arith in
      (
        strtol_at_lem c (signed_decimal z ++ b ∷ rest) (omega arith) h
            (strtol-signed_decimal z b rest range e),
        rw same (consume_lem (c + length (signed_decimal z)) b rest next),
        omega arith,
      )

  -- A written string is read as the slice of its bytes, with the cursor behind it.
  pub parse_raw_string_lem :
      (c : ℕ) (s rest : List ℕ)
      → Holds buffer c (encode_string s ++ rest)
      → parse_raw_string buffer c ≡ ok (locate_string c s, c + length (encode_string s))
  unfolding parse_raw_string
  parse_raw_string_lem c s rest h =
      let len = length s in
      let digits = length (decimal len) in
      let bytes = sym (append_assoc (decimal len) (b':' ∷ s) rest) in
      let total = length-append (decimal len) (b':' ∷ s) in
      let fits = ap length h ∙ length-append (encode_string s) rest in
      let bound = length-drop c buffer in
      let n = number_lem c (pos len) b':' (s ++ rest) (omega arith) refl (rw (append_assoc) at h) in
      rw (n.0, n.1) (ground arith)

  -- the cursor behind bytes that the buffer holds does not wrap
  no_wrap :
      (c : ℕ) (xs : List ℕ) (y : ℕ) (ys : List ℕ)
      → Holds buffer c (xs ++ y ∷ ys)
      → u32 (c + length xs) ≡ c + length xs
  no_wrap c xs y ys h =
      omega (arith, lt_of_drop buffer (c + length xs) (Holds-advance buffer c xs (y ∷ ys) h))

  pub parse_string_lem :
      (c : ℕ) (s rest : List ℕ)
      → Holds buffer c (encode_string s ++ rest)
      → parse_string buffer c
        ≡ ok (BenValue.string (locate_string c s), c + length (encode_string s))
  unfolding parse_string
  parse_string_lem c s rest h = rw (parse_raw_string_lem c s rest h)

  pub parse_num_lem :
      (c : ℕ) (z : ℤ) (rest : List ℕ)
      → IsInt64 z
      → Holds buffer c (b'i' ∷ (signed_decimal z ++ b'e' ∷ rest))
      → parse_num buffer c ≡ ok (BenValue.number z, c + 1 + length (signed_decimal z) + 1)
  unfolding parse_num
  parse_num_lem c z rest range h =
      let n = number_lem (c + 1) z b'e' rest range refl (Holds-next buffer c b'i' _ h) in
      rw (consume_lem c b'i' _ h, n.0, n.1)
