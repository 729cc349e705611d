-- ===== src/Bencode/SkipStep.antt =====
-- One round of `skip_value`, with the calls in it left as they are.
use bite_bit_bitten.Common.{
  ℕ, zero, suc, ◌+◌, ◌^◌, ◌<◌, ◌≡◌, ◌≢◌, ◌⊎◌, true, List, [], ◌∷◌, ◌++◌, arith, length, All,
}
use bite_bit_bitten.Common.Outcome.{ok, ◌>>=◌}
use bite_bit_bitten.Bencode.Strtol.{is_digit}
use bite_bit_bitten.Bencode.Parser.{parse_raw_string}
use bite_bit_bitten.Bencode.Skip.{skip_number, skip_value, skip_items}
use bite_bit_bitten.Bencode.Read.{Holds, Holds-next, peek_lem, consume_lem}

module _ (buffer : List ℕ) (small : length buffer < 2 ^ 31) where
  pub skip_value-nested :
      (f c b stop : ℕ) (r rest : List ℕ)
      → (b ≡ b'd') ⊎ (b ≡ b'l')
      → Holds buffer c (b ∷ r)
      → skip_items buffer f (c + 1) ≡ ok stop
      → Holds buffer stop (b'e' ∷ rest)
      → skip_value buffer (suc f) c ≡ ok (stop + 1)
  unfolding skip_value
  skip_value-nested f c b stop r rest s h e last =
      rw
        (
          peek_lem buffer small c b r h,
          consume_lem buffer small c b r h,
          e,
          consume_lem buffer small stop b'e' rest last,
        )
        (ground arith)

  pub skip_value-number :
      (f c : ℕ) (r : List ℕ)
      → Holds buffer c (b'i' ∷ r)
      → skip_value buffer (suc f) c ≡ skip_number buffer f c
  unfolding skip_value
  skip_value-number f c r h = rw (peek_lem buffer small c b'i' r h)

  pub skip_value-string :
      (f c b : ℕ) (r : List ℕ)
      → is_digit b ≡ true
      → Holds buffer c (b ∷ r)
      → skip_value buffer (suc f) c ≡ (parse_raw_string buffer c >>= λ (s, c₁). ok c₁)
  unfolding skip_value
  skip_value-string f c b r e h = rw (peek_lem buffer small c b r h) (ground arith)

  pub skip_items-cons :
      (f c b : ℕ) (r : List ℕ)
      → b ≢ b'e'
      → Holds buffer c (b ∷ r)
      → skip_items buffer (suc f) c ≡ (skip_value buffer f c >>= λ c₁. skip_items buffer f c₁)
  unfolding skip_items
  skip_items-cons f c b r ne h = rw (peek_lem buffer small c b r h) (ground arith)

  pub skip_items-end :
      (f c : ℕ) (r : List ℕ) → Holds buffer c (b'e' ∷ r) → skip_items buffer (suc f) c ≡ ok c
  unfolding skip_items
  skip_items-end f c r h = rw (peek_lem buffer small c b'e' r h)

  -- a run of bytes up to the first `e`
  pub skip_number_lem :
      (xs : List ℕ) (f c : ℕ) (rest : List ℕ)
      → All (λ x. x ≢ b'e') xs
      → length xs < f
      → Holds buffer c (xs ++ b'e' ∷ rest)
      → skip_number buffer f c ≡ ok (c + length xs + 1)
  unfolding skip_number
  skip_number_lem xs zero c rest ne fuel h = absurd (omega arith)
  skip_number_lem [] (suc f) c rest ne fuel h =
      rw (consume_lem buffer small c b'e' rest h) (ground arith)
  skip_number_lem (x ∷ xs) (suc f) c rest ne fuel h =
      rw (consume_lem buffer small c x (xs ++ b'e' ∷ rest) h) (
        ground (
          arith,
          ne.0,
          skip_number_lem xs f (c + 1) rest ne.1 (omega arith) (Holds-next buffer c x _ h),
        ))
