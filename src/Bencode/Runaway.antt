-- ===== src/Bencode/Runaway.antt =====
-- A declared length of 2 ^ 32 less what the length itself takes moves the 32-bit cursor back to where
-- it was.
use bite_bit_bitten.Common.{
  ℕ, zero, suc, ◌^◌, ◌<◌, ◌≡◌, refl, ◌∙◌, List, [], ◌∷◌, ◌++◌, arith, length,
}
use bite_bit_bitten.Common.Outcome.{ok, out_of_fuel}
use bite_bit_bitten.Bencode.{BenValue}
use bite_bit_bitten.Bencode.Parser.{parse_value, list_items, parse_list, parse_string, consume}
use bite_bit_bitten.Bencode.Read.{consume_lem}
use bite_bit_bitten.Bencode.Step.{parse_value-string, parse_value-list, list_items-cons}

-- A buffer that reads `l` and then, at the cursor, a string whose length takes the cursor back to the
-- string itself: the loop of `parse_list` never ends, whatever fuel it is given.
abbrev runaway_length : List ℕ
runaway_length = b'4' ∷ b'2' ∷ b'9' ∷ b'4' ∷ b'9' ∷ b'6' ∷ b'7' ∷ b'2' ∷ b'8' ∷ b'5' ∷ b':' ∷ []

abbrev pub runaway_list : List ℕ
runaway_list = b'l' ∷ runaway_length

parse_list-out_of_fuel :
    (buffer : List ℕ) (f : ℕ)
    → consume buffer 0 ≡ ok (b'l', 1)
    → list_items buffer f 1 ≡ out_of_fuel
    → parse_list buffer (suc f) 0 ≡ out_of_fuel
unfolding parse_list
parse_list-out_of_fuel buffer f first e = rw (first, e)

module _ (rest : List ℕ) (small : length (runaway_list ++ rest) < 2 ^ 31) where
  same_place :
      parse_string (runaway_list ++ rest) 1
      ≡ ok (BenValue.string (record { start = 12; length = 4294967285 }), 1)
  unfolding parse_string
  same_place = refl

  list_items_runs : (f : ℕ) → list_items (runaway_list ++ rest) f 1 ≡ out_of_fuel
  list_items_runs zero = unfold list_items in refl
  list_items_runs (suc zero) =
      rw (list_items-cons (runaway_list ++ rest) small 0 1 b'4' _ (omega arith) refl)
        (unfold parse_value in refl)
  list_items_runs (suc (suc f)) =
      rw (list_items-cons (runaway_list ++ rest) small (suc f) 1 b'4' _ (omega arith) refl) (
        rw (parse_value-string (runaway_list ++ rest) small f 1 b'4' _ refl refl)
          (rw (same_place, list_items_runs (suc f))))

-- The list `l4294967285:` never ends, whatever bytes follow: the cursor is a 32-bit `int`, so the
-- declared length takes it back to the length. With no amount of fuel does the parser return.
pub parse_value-runaway :
    (rest : List ℕ) (f : ℕ)
    → length (runaway_list ++ rest) < 2 ^ 31
    → parse_value (runaway_list ++ rest) f 0 ≡ out_of_fuel
parse_value-runaway rest zero small = unfold parse_value in refl
parse_value-runaway rest (suc zero) small =
    parse_value-list (runaway_list ++ rest) small 0 0 _ refl ∙ unfold parse_list in refl
parse_value-runaway rest (suc (suc f)) small =
    parse_value-list (runaway_list ++ rest) small (suc f) 0 _ refl
    ∙ parse_list-out_of_fuel (runaway_list ++ rest) f (consume_lem _ small 0 b'l' _ refl)
        (list_items_runs rest small f)
