-- ===== src/Bencode/Step.antt =====
-- One round of each loop of the parser, with the calls in it left as they are.
use bite_bit_bitten.Common.{ℕ, suc, ◌+◌, ◌^◌, ◌<◌, ◌≡◌, ◌≢◌, true, List, ◌∷◌, arith, length}
use bite_bit_bitten.Common.Outcome.{ok, ◌>>=◌}
use bite_bit_bitten.Bencode.{BenValue, BenList, BenPair, list_end, list_node, pair_end, pair_node}
use bite_bit_bitten.Bencode.Strtol.{is_digit}
use bite_bit_bitten.Bencode.Parser.{
  parse_raw_string, parse_string, parse_num, parse_value, parse_list, list_items, parse_dict,
  dict_pairs,
}
use bite_bit_bitten.Bencode.Read.{Holds, peek_lem, consume_lem}

module _ (buffer : List ℕ) (small : length buffer < 2 ^ 31) where
  -- how `parse_value` goes on from the first byte
  pub parse_value-number :
      (f c : ℕ) (r : List ℕ)
      → Holds buffer c (b'i' ∷ r)
      → parse_value buffer (suc f) c ≡ parse_num buffer c
  unfolding parse_value
  parse_value-number f c r h = rw (peek_lem buffer small c b'i' r h)

  pub parse_value-list :
      (f c : ℕ) (r : List ℕ)
      → Holds buffer c (b'l' ∷ r)
      → parse_value buffer (suc f) c ≡ parse_list buffer f c
  unfolding parse_value
  parse_value-list f c r h = rw (peek_lem buffer small c b'l' r h)

  pub parse_value-dict :
      (f c : ℕ) (r : List ℕ)
      → Holds buffer c (b'd' ∷ r)
      → parse_value buffer (suc f) c ≡ parse_dict buffer f c
  unfolding parse_value
  parse_value-dict f c r h = rw (peek_lem buffer small c b'd' r h)

  pub parse_value-string :
      (f c b : ℕ) (r : List ℕ)
      → is_digit b ≡ true
      → Holds buffer c (b ∷ r)
      → parse_value buffer (suc f) c ≡ parse_string buffer c
  unfolding parse_value
  parse_value-string f c b r e h = rw (peek_lem buffer small c b r h) (ground arith)

  -- the loops at an element and at their end
  pub list_items-cons :
      (f c b : ℕ) (r : List ℕ)
      → b ≢ b'e'
      → Holds buffer c (b ∷ r)
      → list_items buffer (suc f) c ≡ (
          parse_value buffer f c >>= λ (val, c₁).
          list_items buffer f c₁ >>= λ (rest, c₂). ok (list_node val rest, c₂))
  unfolding list_items
  list_items-cons f c b r ne h = rw (peek_lem buffer small c b r h) (ground arith)

  pub list_items-end :
      (f c : ℕ) (r : List ℕ)
      → Holds buffer c (b'e' ∷ r)
      → list_items buffer (suc f) c ≡ ok (list_end, c)
  unfolding list_items
  list_items-end f c r h = rw (peek_lem buffer small c b'e' r h)

  pub dict_pairs-cons :
      (f c b : ℕ) (r : List ℕ)
      → b ≢ b'e'
      → Holds buffer c (b ∷ r)
      → dict_pairs buffer (suc f) c ≡ (
          parse_raw_string buffer c >>= λ (key, c₁). parse_value buffer f c₁ >>= λ (val, c₂).
          dict_pairs buffer f c₂ >>= λ (rest, c₃). ok (pair_node key val rest, c₃))
  unfolding dict_pairs
  dict_pairs-cons f c b r ne h = rw (peek_lem buffer small c b r h) (ground arith)

  pub dict_pairs-end :
      (f c : ℕ) (r : List ℕ)
      → Holds buffer c (b'e' ∷ r)
      → dict_pairs buffer (suc f) c ≡ ok (pair_end, c)
  unfolding dict_pairs
  dict_pairs-end f c r h = rw (peek_lem buffer small c b'e' r h)

  -- a list and a dictionary round their loops, which stop at the closing byte
  pub parse_list_lem :
      (f c stop : ℕ) (l : BenList) (r rest : List ℕ)
      → Holds buffer c (b'l' ∷ r)
      → list_items buffer f (c + 1) ≡ ok (l, stop)
      → Holds buffer stop (b'e' ∷ rest)
      → parse_list buffer (suc f) c ≡ ok (BenValue.list l, stop + 1)
  unfolding parse_list
  parse_list_lem f c stop l r rest h e last =
      rw (consume_lem buffer small c b'l' r h, e, consume_lem buffer small stop b'e' rest last)

  pub parse_dict_lem :
      (f c stop : ℕ) (d : BenPair) (r rest : List ℕ)
      → Holds buffer c (b'd' ∷ r)
      → dict_pairs buffer f (c + 1) ≡ ok (d, stop)
      → Holds buffer stop (b'e' ∷ rest)
      → parse_dict buffer (suc f) c ≡ ok (BenValue.dict d, stop + 1)
  unfolding parse_dict
  parse_dict_lem f c stop d r rest h e last =
      rw (consume_lem buffer small c b'd' r h, e, consume_lem buffer small stop b'e' rest last)
