-- ===== src/Bencode/Written.antt =====
-- The bytes of a written tree: how they begin and where they end.
use bite_bit_bitten.Common.{
  ℕ, ◌+◌, ◌-◌, ◌<◌, ◌≡◌, refl, ap, ◌∙◌, ◌≢◌, true, List, [], ◌∷◌, ◌++◌, append_assoc, arith, length,
  length-append,
}
use bite_bit_bitten.Bencode.Strtol.{is_digit}
use bite_bit_bitten.Bencode.Tree.{
  Tree, Trees, Fields, number, string, list, dict, nil, cons, end, field, decimal, signed_decimal,
  encode_string, encode, encode_items, encode_fields,
}
use bite_bit_bitten.Bencode.Decimal.{decimal_digits-head}
use bite_bit_bitten.Bencode.Read.{Holds, Holds-advance}

pub encode_string-head :
    (s : List ℕ) → (b : ℕ) × (bs : List ℕ) × (encode_string s ≡ b ∷ bs) × (is_digit b ≡ true)
encode_string-head s =
    let head = decimal_digits-head (length s) (length s) in
    (head.0, head.1 ++ b':' ∷ s, ap (λ l. l ++ b':' ∷ s) head.2, ground arith)

pub encode-head : (t : Tree) → (b : ℕ) × (bs : List ℕ) × (encode t ≡ b ∷ bs) × (b ≢ b'e')
unfolding encode
encode-head (number z) = (b'i', _, refl, omega arith)
encode-head (list ts) = (b'l', _, refl, omega arith)
encode-head (dict fs) = (b'd', _, refl, omega arith)
encode-head (string s) = let head = encode_string-head s in (head.0, head.1, head.2, ground arith)

pub length-encode_pos : (t : Tree) → 1 < length (encode t)
unfolding encode
length-encode_pos (number z) = omega (arith, length-append (signed_decimal z) (b'e' ∷ []))
length-encode_pos (string s) = omega (
  arith,
  length-append (decimal (length s)) (b':' ∷ s),
  ap length (decimal_digits-head (length s) (length s)).2,
)
length-encode_pos (list nil) = omega arith
length-encode_pos (list (cons t ts)) =
    omega (arith, length-append (encode t) (encode_items ts), length-encode_pos t)
length-encode_pos (dict end) = omega arith
length-encode_pos (dict (field k t fs)) = omega (
  arith,
  length-append (encode_string k) (encode t ++ encode_fields fs),
  length-append (encode t) (encode_fields fs),
  length-encode_pos t,
)

pub items_pos : (ts : Trees) → 0 < length (encode_items ts)
unfolding encode_items
items_pos nil = omega arith
items_pos (cons t ts) =
    omega (arith, length-append (encode t) (encode_items ts), length-encode_pos t)

pub fields_pos : (fs : Fields) → 0 < length (encode_fields fs)
unfolding encode_fields
fields_pos end = omega arith
fields_pos (field k t fs) = omega (
  arith,
  length-append (encode_string k) (encode t ++ encode_fields fs),
  length-append (encode t) (encode_fields fs),
  length-encode_pos t,
)

module _ (buffer : List ℕ) where
  pub items_end :
      (p : ℕ) (ts : Trees) (rest : List ℕ)
      → Holds buffer p (encode_items ts ++ rest)
      → Holds buffer (p + (length (encode_items ts) - 1)) (b'e' ∷ rest)
  unfolding encode_items
  items_end p nil rest h = let e : p + (1 - 1) ≡ p = omega arith in rw e h
  items_end p (cons t ts) rest h =
      let next =
        Holds-advance buffer p (encode t) (encode_items ts ++ rest)
          (h ∙ append_assoc (encode t) (encode_items ts) rest) in
      let e : p + (length (encode t ++ encode_items ts) - 1)
          ≡ p + length (encode t) + (length (encode_items ts) - 1) =
        omega (arith, length-append (encode t) (encode_items ts), items_pos ts) in
      rw e (items_end (p + length (encode t)) ts rest next)

  pub fields_end :
      (p : ℕ) (fs : Fields) (rest : List ℕ)
      → Holds buffer p (encode_fields fs ++ rest)
      → Holds buffer (p + (length (encode_fields fs) - 1)) (b'e' ∷ rest)
  unfolding encode_fields
  fields_end p end rest h = let e : p + (1 - 1) ≡ p = omega arith in rw e h
  fields_end p (field k t fs) rest h =
      let after_key =
        Holds-advance buffer p (encode_string k) ((encode t ++ encode_fields fs) ++ rest)
          (h ∙ append_assoc (encode_string k) (encode t ++ encode_fields fs) rest) in
      let next =
        Holds-advance buffer (p + length (encode_string k)) (encode t) (encode_fields fs ++ rest)
          (after_key ∙ append_assoc (encode t) (encode_fields fs) rest) in
      let e : p + (length (encode_string k ++ (encode t ++ encode_fields fs)) - 1)
          ≡ p + length (encode_string k) + length (encode t) + (length (encode_fields fs) - 1) =
        omega (
          arith,
          length-append (encode_string k) (encode t ++ encode_fields fs),
          length-append (encode t) (encode_fields fs),
          fields_pos fs,
        ) in
      rw e (fields_end (p + length (encode_string k) + length (encode t)) fs rest next)

  pub fields_bytes :
      (k : List ℕ) (t : Tree) (fs : Fields) (rest : List ℕ) (c : ℕ)
      → Holds buffer c (encode_fields (field k t fs) ++ rest)
      → Holds buffer c (encode_string k ++ (encode t ++ (encode_fields fs ++ rest)))
  unfolding encode
  fields_bytes k t fs rest c e =
      e
      ∙ append_assoc (encode_string k) (encode t ++ encode_fields fs) rest
      ∙ ap (λ l. encode_string k ++ l) (append_assoc (encode t) (encode_fields fs) rest)
