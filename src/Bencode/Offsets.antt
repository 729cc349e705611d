-- ===== src/Bencode/Offsets.antt =====
-- `get_info_value_offset` finds the bytes of the info dictionary.
use bite_bit_bitten.Common.{
  ℕ, zero, suc, ◌+◌, ◌-◌, ◌*◌, ◌^◌, ◌<◌, ◌≡◌, refl, sym, ap, ◌∙◌, ◌≢◌, inl, inr, Option, none, some,
  List, [], ◌∷◌, ◌++◌, append_assoc, arith, ◌==◌, if◌then◌else◌, ==_iff, Bool-cases, length, drop,
  length-append, take-append, slice,
}
use bite_bit_bitten.Common.Outcome.{ok}
use bite_bit_bitten.Bencode.Tree.{
  Tree, Fields, dict, end, field, decimal, encode_string, encode, encode_fields, locate_string,
}
use bite_bit_bitten.Bencode.Read.{
  Holds, Holds-advance, Holds-next, peek_lem, consume_lem, parse_raw_string_lem,
}
use bite_bit_bitten.Bencode.Keys.{same_bytes, same_bytes-length, strncmp_eq_lem}
use bite_bit_bitten.Bencode.Skip.{info_key, is_info_key, info_offset_from, get_info_value_offset}
use bite_bit_bitten.Bencode.SkipLaws.{skip_value_at}
use bite_bit_bitten.Bencode.Written.{
  encode_string-head, length-encode_pos, fields_pos, fields_bytes,
}

-- where the value of the first key `info` stands in the fields that are written from `c` on
unfoldable pub info_span : ℕ → Fields → Option (ℕ × ℕ)
unfolding same_bytes encode
info_span c end = none
info_span c (field k t fs) =
    let value_at = c + length (encode_string k) in
    let after = value_at + length (encode t) in
    if same_bytes k info_key then some (value_at, after) else info_span after fs

-- the value of the first key `info`
unfoldable pub info_of : Fields → Option Tree
unfolding same_bytes
info_of end = none
info_of (field k t fs) = if same_bytes k info_key then some t else info_of fs

-- The span, if any, holds the bytes of the tree, if any.
abbrev pub Marks : List ℕ → Option (ℕ × ℕ) → Option Tree → Type 0
Marks buffer none none = Unit
Marks buffer none (some t) = ⊥
Marks buffer (some (begin, stop)) none = ⊥
Marks buffer (some (begin, stop)) (some t) = slice buffer begin (stop - begin) ≡ encode t

module _ (buffer : List ℕ) (small : length buffer < 2 ^ 31) where
  is_info_key_lem :
      (c : ℕ) (k more : List ℕ)
      → Holds buffer c (encode_string k ++ more)
      → is_info_key buffer (locate_string c k) ≡ ok (same_bytes k info_key)
  is_info_key_lem c k more e =
      let before = decimal (length k) ++ b':' ∷ [] in
      let bytes =
        e
        ∙ append_assoc (decimal (length k)) (b':' ∷ k) more
        ∙ sym (append_assoc (decimal (length k)) (b':' ∷ []) (k ++ more)) in
      let at =
        ap (λ n. drop (c + n) buffer) (sym (length-append (decimal (length k)) (b':' ∷ [])))
        ∙ Holds-advance buffer c before (k ++ more) bytes in
      elim (Bool-cases (length k == 4)) [
        | inl four ↦
            rw (four, at) (strncmp_eq_lem k info_key more ((==_iff _ _).0 four) (omega arith))
        | inr other ↦ rw (other, same_bytes-length k info_key (ground arith))
      ]

  -- one round of the loop over the keys
  info_offset_step :
      (f c b : ℕ) (k r : List ℕ) (t : Tree) (more : List ℕ)
      → b ≢ b'e'
      → Holds buffer c (b ∷ r)
      → Holds buffer c (encode_string k ++ (encode t ++ more))
      → 2 * length (encode t) < f
      → let value_at = c + length (encode_string k) in
        let after = value_at + length (encode t) in
        info_offset_from buffer (suc f) c ≡ (
          if same_bytes k info_key
          then ok (some (value_at, after))
          else info_offset_from buffer f after)
  unfolding info_offset_from
  info_offset_step f c b k r t more ne first e fuel =
      let value_at = Holds-advance buffer c (encode_string k) (encode t ++ more) e in
      rw
        (
          peek_lem buffer small c b r first,
          parse_raw_string_lem buffer small c k (encode t ++ more) e,
        )
        (ground (
          arith,
          is_info_key_lem c k (encode t ++ more) e,
          skip_value_at buffer small t f (c + length (encode_string k)) more fuel value_at,
        ))

  info_offset_end :
      (f c : ℕ) (r : List ℕ)
      → Holds buffer c (b'e' ∷ r)
      → info_offset_from buffer (suc f) c ≡ ok none
  unfolding info_offset_from
  info_offset_end f c r h = rw (peek_lem buffer small c b'e' r h)

  info_offset_at :
      (fs : Fields) (f c : ℕ) (rest : List ℕ)
      → 2 * length (encode_fields fs) < f
      → Holds buffer c (encode_fields fs ++ rest)
      → info_offset_from buffer f c ≡ ok (info_span c fs)
  unfolding info_span
  info_offset_at fs zero c rest h e = absurd (omega arith)
  info_offset_at end (suc f) c rest h e = info_offset_end f c rest e
  info_offset_at (field k t fs) (suc f) c rest h e =
      let key = encode_string-head k in
      let more = encode_fields fs ++ rest in
      let bytes = fields_bytes buffer k t fs rest c e in
      let value_at = Holds-advance buffer c (encode_string k) (encode t ++ more) bytes in
      let after = Holds-advance buffer (c + length (encode_string k)) (encode t) more value_at in
      let total = length-append (encode_string k) (encode t ++ encode_fields fs) in
      let inner = length-append (encode t) (encode_fields fs) in
      let some_fields = fields_pos fs in
      let some_bytes = length-encode_pos t in
      info_offset_step f c key.0 k (key.1 ++ (encode t ++ more)) t more (ground arith)
        (bytes ∙ ap (λ l. l ++ (encode t ++ more)) key.2) bytes (omega arith)
      ∙ ground (
        arith,
        info_offset_at fs f (c + length (encode_string k) + length (encode t)) rest (omega arith)
            after,
      )

  info_span-Marks :
      (fs : Fields) (c : ℕ) (rest : List ℕ)
      → Holds buffer c (encode_fields fs ++ rest)
      → Marks buffer (info_span c fs) (info_of fs)
  unfolding info_span info_of
  info_span-Marks end c rest e = tt
  info_span-Marks (field k t fs) c rest e =
      let more = encode_fields fs ++ rest in
      let bytes = fields_bytes buffer k t fs rest c e in
      let begin = c + length (encode_string k) in
      let value_at = Holds-advance buffer c (encode_string k) (encode t ++ more) bytes in
      let after = Holds-advance buffer begin (encode t) more value_at in
      let len : begin + length (encode t) - begin ≡ length (encode t) = omega arith in
      elim (Bool-cases (same_bytes k info_key)) [
        | inl found ↦ rw found (rw (len, value_at) (take-append (encode t) more))
        | inr other ↦ rw other (info_span-Marks fs (begin + length (encode t)) rest after)
      ]

-- In a file that begins with a written dictionary, `get_info_value_offset` gives the two ends of the
-- bytes of the first value whose key is `info`, and leaves the offsets unset when there is none.
pub get_info_value_offset-Marks :
    (fs : Fields) (rest : List ℕ) (f : ℕ)
    → length (encode (dict fs) ++ rest) < 2 ^ 31
    → 2 * length (encode (dict fs)) < f
    → let buffer = encode (dict fs) ++ rest in
      (span : Option (ℕ × ℕ)) × (get_info_value_offset buffer f ≡ ok span)
      × Marks buffer span (info_of fs)
unfolding get_info_value_offset encode
get_info_value_offset-Marks fs rest f small fuel =
    let buffer = encode (dict fs) ++ rest in
    let at = Holds-next buffer 0 b'd' (encode_fields fs ++ rest) refl in
    (
      info_span 1 fs,
      rw (consume_lem buffer small 0 b'd' (encode_fields fs ++ rest) refl)
          (info_offset_at buffer small fs f 1 rest (omega arith) at),
      info_span-Marks buffer small fs 1 rest at,
    )
