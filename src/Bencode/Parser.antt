-- ===== src/Bencode/Parser.antt =====
-- The recursive descent of parser/parser.c. `cursor` is the pattern of a 32-bit `int`: a negative
-- one is 2 ^ 31 or more and reads before the buffer. A parser takes the buffer and the cursor, and
-- gives a value and the new cursor. `failed` is the NULL of a malformed file.
use bite_bit_bitten.Common.{
  ℕ, zero, suc, ◌+◌, ◌^◌, List, ltb, ◌==◌, if◌then◌else◌, get_elem?, drop, u32, ℤ, to_word,
}
use bite_bit_bitten.Common.Outcome.{of_option, Outcome, ok, failed, fault, out_of_fuel, ◌>>=◌}
use bite_bit_bitten.Bencode.{
  BenString, BenValue, BenList, BenPair, number, string, list, dict, list_end, list_node, pair_end,
  pair_node,
}
use bite_bit_bitten.Bencode.Strtol.{strtol, is_digit}

-- `buffer.data[cursor]`
abbrev pub byte_at : List ℕ → ℕ → Outcome ℕ
byte_at buffer cursor = if ltb cursor (2 ^ 31) then of_option (get_elem? buffer cursor) else fault

unfoldable pub peek : List ℕ → ℕ → Outcome (ℕ × ℕ)
peek buffer cursor = byte_at buffer cursor >>= λ b. ok (b, cursor)

unfoldable pub consume : List ℕ → ℕ → Outcome (ℕ × ℕ)
consume buffer cursor = byte_at buffer cursor >>= λ b. ok (b, u32 (cursor + 1))

-- `strtol((char *) buffer.data + cursor, &end, 10)`
unfoldable pub strtol_at : List ℕ → ℕ → Outcome (ℤ × ℕ)
unfolding strtol
strtol_at buffer cursor =
    if ltb cursor (2 ^ 31) then of_option (strtol (drop cursor buffer)) else fault

-- `length` is a `size_t`, so a negative number becomes a large one.
unfoldable pub parse_raw_string : List ℕ → ℕ → Outcome (BenString × ℕ)
unfolding strtol_at consume
parse_raw_string buffer c = do
  (num, n) ← strtol_at buffer c
  (colon, start) ← consume buffer (u32 (c + n))
  let len = to_word 64 num
  ok (record { start = start; length = len }, u32 (start + len))

unfoldable pub parse_string : List ℕ → ℕ → Outcome (BenValue × ℕ)
unfolding parse_raw_string
parse_string buffer c = parse_raw_string buffer c >>= λ (s, c'). ok (string s, c')

unfoldable pub parse_num : List ℕ → ℕ → Outcome (BenValue × ℕ)
unfolding strtol_at consume
parse_num buffer c = do
  (i, c₁) ← consume buffer c
  (num, n) ← strtol_at buffer c₁
  (e, c₂) ← consume buffer (u32 (c₁ + n))
  if e == b'e' then ok (number num, c₂) else failed

-- The `while` loops are the functions on `BenList` and `BenPair`.
unfoldable mutual
  unfolding peek consume parse_num parse_string parse_raw_string

  pub parse_value : List ℕ → ℕ → ℕ → Outcome (BenValue × ℕ)
  parse_value buffer zero c = out_of_fuel
  parse_value buffer (suc f) c =
      let as_list = parse_list buffer f c in
      let as_dict = parse_dict buffer f c in
      peek buffer c >>= λ (b, c).
      if b == b'i'
      then parse_num buffer c
      else if b == b'l'
      then as_list
      else if b == b'd'
      then as_dict
      else if is_digit b
      then parse_string buffer c
      else failed

  pub parse_list : List ℕ → ℕ → ℕ → Outcome (BenValue × ℕ)
  parse_list buffer zero c = out_of_fuel
  parse_list buffer (suc f) c = do
    (l, c₁) ← consume buffer c
    (items, c₂) ← list_items buffer f c₁
    (e, c₃) ← consume buffer c₂
    if e == b'e' then ok (list items, c₃) else failed

  pub list_items : List ℕ → ℕ → ℕ → Outcome (BenList × ℕ)
  list_items buffer zero c = out_of_fuel
  list_items buffer (suc f) c =
      let more = do
        (val, c₁) ← parse_value buffer f c
        (rest, c₂) ← list_items buffer f c₁
        ok (list_node val rest, c₂)
      in peek buffer c >>= λ (b, c). if b == b'e' then ok (list_end, c) else more

  pub parse_dict : List ℕ → ℕ → ℕ → Outcome (BenValue × ℕ)
  parse_dict buffer zero c = out_of_fuel
  parse_dict buffer (suc f) c =
      let pairs = λ (c₁ : ℕ). dict_pairs buffer f c₁ in
      consume buffer c >>= λ (d, c₁).
      if d == b'd'
      then (do
        (items, c₂) ← pairs c₁
        (e, c₃) ← consume buffer c₂
        if e == b'e' then ok (dict items, c₃) else failed)
      else failed

  pub dict_pairs : List ℕ → ℕ → ℕ → Outcome (BenPair × ℕ)
  dict_pairs buffer zero c = out_of_fuel
  dict_pairs buffer (suc f) c =
      let more = do
        (key, c₁) ← parse_raw_string buffer c
        (val, c₂) ← parse_value buffer f c₁
        (rest, c₃) ← dict_pairs buffer f c₂
        ok (pair_node key val rest, c₃)
      in peek buffer c >>= λ (b, c). if b == b'e' then ok (pair_end, c) else more
