-- ===== src/Bencode/SkipLaws.antt =====
-- `skip_value` passes over every tree that is written in the buffer.
use bite_bit_bitten.Common.{
  ℕ, zero, suc, ◌+◌, ◌-◌, ◌*◌, ◌^◌, ◌<◌, ◌≡◌, refl, ap, ◌∙◌, ◌≢◌, inl, inr, List, [], ◌∷◌, ◌++◌,
  append_assoc, arith, length, All, length-append, drop-append, ℤ, pos, negsuc,
}
use bite_bit_bitten.Common.Outcome.{ok}
use bite_bit_bitten.Bencode.Tree.{
  Tree, Trees, Fields, number, string, list, dict, nil, cons, end, field, decimal, signed_decimal,
  encode_string, encode, encode_items, encode_fields,
}
use bite_bit_bitten.Bencode.Read.{Holds, Holds-advance, Holds-next, parse_raw_string_lem}
use bite_bit_bitten.Bencode.Decimal.{IsDigit, decimal_digits-IsDigit}
use bite_bit_bitten.Bencode.Skip.{skip_value, skip_items}
use bite_bit_bitten.Bencode.SkipStep.{
  skip_value-nested, skip_value-number, skip_value-string, skip_items-cons, skip_items-end,
  skip_number_lem,
}
use bite_bit_bitten.Bencode.Written.{
  encode_string-head, encode-head, length-encode_pos, items_pos, fields_pos, items_end, fields_end,
  fields_bytes,
}

digits_ne : (ds : List ℕ) → All IsDigit ds → All (λ x. x ≢ b'e') ds
digits_ne [] h = tt
digits_ne (d ∷ ds) h = (omega arith, digits_ne ds h.1)

signed_decimal_ne : (z : ℤ) → All (λ x. x ≢ b'e') (signed_decimal z)
signed_decimal_ne (pos n) = digits_ne (decimal n) (decimal_digits-IsDigit n n)
signed_decimal_ne (negsuc n) =
    (omega arith, digits_ne (decimal (n + 1)) (decimal_digits-IsDigit (n + 1) (n + 1)))

module _ (buffer : List ℕ) (small : length buffer < 2 ^ 31) where
  pub skip_string :
      (f c : ℕ) (s rest : List ℕ)
      → Holds buffer c (encode_string s ++ rest)
      → skip_value buffer (suc f) c ≡ ok (c + length (encode_string s))
  skip_string f c s rest e =
      let head = encode_string-head s in
      rw (
        skip_value-string buffer small f c head.0 (head.1 ++ rest) head.3
            (e ∙ ap (λ l. l ++ rest) head.2),
        parse_raw_string_lem buffer small c s rest e,
      )

  mutual
    unfolding encode

    pub skip_value_at :
        (t : Tree) (f c : ℕ) (rest : List ℕ)
        → 2 * length (encode t) < f
        → Holds buffer c (encode t ++ rest)
        → skip_value buffer f c ≡ ok (c + length (encode t))
    skip_value_at t zero c rest h e = absurd (omega arith)
    skip_value_at (number z) (suc f) c rest h e =
        let bytes = e ∙ ap (λ l. b'i' ∷ l) (append_assoc (signed_decimal z) (b'e' ∷ []) rest) in
        let total = length-append (signed_decimal z) (b'e' ∷ []) in
        rw
          (
            skip_value-number buffer small f c _ e,
            skip_number_lem buffer small (b'i' ∷ signed_decimal z) f c rest
                (omega arith, signed_decimal_ne z) (omega arith) bytes,
          )
          (ground arith)
    skip_value_at (string s) (suc f) c rest h e = skip_string f c s rest e
    skip_value_at (list ts) (suc f) c rest h e =
        let inner = Holds-next buffer c b'l' (encode_items ts ++ rest) e in
        let stop = c + 1 + (length (encode_items ts) - 1) in
        let items = skip_items_at ts f (c + 1) rest (omega arith) inner in
        rw
          (skip_value-nested buffer small f c b'l' stop _ rest (inr refl) e items
            (items_end buffer (c + 1) ts rest inner))
          (ground (arith, items_pos ts))
    skip_value_at (dict fs) (suc f) c rest h e =
        let inner = Holds-next buffer c b'd' (encode_fields fs ++ rest) e in
        let stop = c + 1 + (length (encode_fields fs) - 1) in
        let items = skip_fields_at fs f (c + 1) rest (omega arith) inner in
        rw
          (skip_value-nested buffer small f c b'd' stop _ rest (inl refl) e items
            (fields_end buffer (c + 1) fs rest inner))
          (ground (arith, fields_pos fs))

    skip_items_at :
        (ts : Trees) (f c : ℕ) (rest : List ℕ)
        → 2 * length (encode_items ts) < f
        → Holds buffer c (encode_items ts ++ rest)
        → skip_items buffer f c ≡ ok (c + (length (encode_items ts) - 1))
    skip_items_at ts zero c rest h e = absurd (omega arith)
    skip_items_at nil (suc f) c rest h e =
        rw (skip_items-end buffer small f c rest e) (ground arith)
    skip_items_at (cons t ts) (suc f) c rest h e =
        let head = encode-head t in
        let more = encode_items ts ++ rest in
        let bytes = e ∙ append_assoc (encode t) (encode_items ts) rest in
        let after = Holds-advance buffer c (encode t) more bytes in
        let total = length-append (encode t) (encode_items ts) in
        let some_items = items_pos ts in
        let some_bytes = length-encode_pos t in
        rw
          (
            skip_items-cons buffer small f c head.0 (head.1 ++ more) head.3
                (bytes ∙ ap (λ l. l ++ more) head.2),
            skip_value_at t f c more (omega arith) bytes,
            skip_items_at ts f (c + length (encode t)) rest (omega arith) after,
          )
          (ground arith)

    -- The keys are skipped as values are.
    skip_fields_at :
        (fs : Fields) (f c : ℕ) (rest : List ℕ)
        → 2 * length (encode_fields fs) < f
        → Holds buffer c (encode_fields fs ++ rest)
        → skip_items buffer f c ≡ ok (c + (length (encode_fields fs) - 1))
    skip_fields_at fs zero c rest h e = absurd (omega arith)
    skip_fields_at end (suc f) c rest h e =
        rw (skip_items-end buffer small f c rest e) (ground arith)
    skip_fields_at (field k t fs) (suc zero) c rest h e =
        absurd (omega (arith, fields_pos (field k t fs)))
    skip_fields_at (field k t fs) (suc (suc zero)) c rest h e = absurd (
        omega (
          arith,
          length-append (encode_string k) (encode t ++ encode_fields fs),
          length-append (encode t) (encode_fields fs),
          length-encode_pos t,
        ))
    skip_fields_at (field k t fs) (suc (suc (suc f))) c rest h e =
        let key = encode_string-head k in
        let head = encode-head t in
        let more = encode_fields fs ++ rest in
        let bytes = fields_bytes buffer k t fs rest c e in
        let value_at = Holds-advance buffer c (encode_string k) (encode t ++ more) bytes in
        let after = Holds-advance buffer (c + length (encode_string k)) (encode t) more value_at in
        let total = length-append (encode_string k) (encode t ++ encode_fields fs) in
        let inner = length-append (encode t) (encode_fields fs) in
        let key_bytes = ap length key.2 in
        let some_fields = fields_pos fs in
        let some_bytes = length-encode_pos t in
        rw
          (
            skip_items-cons buffer small (suc (suc f)) c key.0 (key.1 ++ (encode t ++ more))
                (ground arith) (bytes ∙ ap (λ l. l ++ (encode t ++ more)) key.2),
            skip_string (suc f) c k (encode t ++ more) bytes,
            skip_items-cons buffer small (suc f) (c + length (encode_string k)) head.0
                (head.1 ++ more) head.3 (value_at ∙ ap (λ l. l ++ more) head.2),
            skip_value_at t (suc f) (c + length (encode_string k)) more (omega arith) value_at,
            skip_fields_at fs (suc f) (c + length (encode_string k) + length (encode t)) rest
                (omega arith) after,
          )
          (ground arith)

-- With more fuel than twice the bytes of a tree, `skip_value` moves the cursor from the first byte of
-- a written tree to right behind its last.
pub skip_value-encode :
    (before : List ℕ) (t : Tree) (rest : List ℕ) (f : ℕ)
    → length (before ++ (encode t ++ rest)) < 2 ^ 31
    → 2 * length (encode t) < f
    → skip_value (before ++ (encode t ++ rest)) f (length before)
      ≡ ok (length before + length (encode t))
skip_value-encode before t rest f small fuel =
    skip_value_at (before ++ (encode t ++ rest)) small t f (length before) rest fuel
      (drop-append before (encode t ++ rest))
