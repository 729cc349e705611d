-- ===== src/Bencode/Tree.antt =====
-- What bencode means: trees of numbers, byte strings, lists and dictionaries, how a tree is written,
-- and the parse tree that stands for it at an offset of the buffer.
use bite_bit_bitten.Common.{
  ℕ, zero, suc, ◌+◌, ◌/◌, ◌%◌, ◌^◌, ◌<◌, List, [], ◌∷◌, ◌++◌, ltb, if◌then◌else◌, length, slice, ℤ,
  pos, negsuc,
}
use bite_bit_bitten.Bencode.{
  BenString, BenValue, BenList, BenPair, list_end, list_node, pair_end, pair_node,
}

mutual
  pub data Tree : Type 0 where
    number : ℤ → Tree
    string : List ℕ → Tree
    list : Trees → Tree
    dict : Fields → Tree

  pub data Trees : Type 0 where
    nil : Trees
    cons : Tree → Trees → Trees

  pub data Fields : Type 0 where
    end : Fields
    field : List ℕ → Tree → Fields → Fields

-- the decimal digits of a number, with fuel for one more digit than there are
unfoldable pub decimal_digits : ℕ → ℕ → List ℕ
decimal_digits zero n = (n % 10 + b'0') ∷ []
decimal_digits (suc f) n =
    let high = decimal_digits f (n / 10) in
    let last = (n % 10 + b'0') ∷ [] in if ltb n 10 then last else high ++ last

abbrev pub decimal : ℕ → List ℕ
decimal n = decimal_digits n n

abbrev pub signed_decimal : ℤ → List ℕ
signed_decimal (pos n) = decimal n
signed_decimal (negsuc n) = b'-' ∷ decimal (n + 1)

abbrev pub encode_string : List ℕ → List ℕ
encode_string s = decimal (length s) ++ b':' ∷ s

unfoldable mutual
  pub encode : Tree → List ℕ
  encode (number z) = b'i' ∷ (signed_decimal z ++ b'e' ∷ [])
  encode (string s) = encode_string s
  encode (list ts) = b'l' ∷ encode_items ts
  encode (dict fs) = b'd' ∷ encode_fields fs

  pub encode_items : Trees → List ℕ
  encode_items nil = b'e' ∷ []
  encode_items (cons t ts) = encode t ++ encode_items ts

  pub encode_fields : Fields → List ℕ
  encode_fields end = b'e' ∷ []
  encode_fields (field k t fs) = encode_string k ++ (encode t ++ encode_fields fs)

-- the slice of a string that is written at offset `c`
abbrev pub locate_string : ℕ → List ℕ → BenString
locate_string c s = record { start = c + (length (decimal (length s)) + 1); length = length s }

-- the parse tree of a tree that is written at offset `c`
unfoldable mutual
  unfolding encode

  pub locate : ℕ → Tree → BenValue
  locate c (number z) = BenValue.number z
  locate c (string s) = BenValue.string (locate_string c s)
  locate c (list ts) = BenValue.list (locate_items (c + 1) ts)
  locate c (dict fs) = BenValue.dict (locate_fields (c + 1) fs)

  pub locate_items : ℕ → Trees → BenList
  locate_items c nil = list_end
  locate_items c (cons t ts) = list_node (locate c t) (locate_items (c + length (encode t)) ts)

  pub locate_fields : ℕ → Fields → BenPair
  locate_fields c end = pair_end
  locate_fields c (field k t fs) =
      pair_node (locate_string c k) (locate (c + length (encode_string k)) t)
        (locate_fields (c + length (encode_string k) + length (encode t)) fs)

-- the tree that a parse tree stands for in a buffer
unfoldable mutual
  pub view : List ℕ → BenValue → Tree
  view buffer (BenValue.number z) = number z
  view buffer (BenValue.string s) = string (slice buffer s.start s.length)
  view buffer (BenValue.list l) = list (view_items buffer l)
  view buffer (BenValue.dict d) = dict (view_fields buffer d)

  pub view_items : List ℕ → BenList → Trees
  view_items buffer list_end = nil
  view_items buffer (list_node v l) = cons (view buffer v) (view_items buffer l)

  pub view_fields : List ℕ → BenPair → Fields
  view_fields buffer pair_end = end
  view_fields buffer (pair_node k v d) =
      field (slice buffer k.start k.length) (view buffer v) (view_fields buffer d)

-- Every number of the tree is an `int64_t`.
abbrev pub IsInt64 : ℤ → Type 0
IsInt64 (pos n) = n < 2 ^ 63
IsInt64 (negsuc n) = n < 2 ^ 63

abbrev mutual
  pub InRange : Tree → Type 0
  InRange (number z) = IsInt64 z
  InRange (string s) = Unit
  InRange (list ts) = InRangeItems ts
  InRange (dict fs) = InRangeFields fs

  pub InRangeItems : Trees → Type 0
  InRangeItems nil = Unit
  InRangeItems (cons t ts) = InRange t × InRangeItems ts

  pub InRangeFields : Fields → Type 0
  InRangeFields end = Unit
  InRangeFields (field k t fs) = InRange t × InRangeFields fs
