-- ===== src/Bencode/Tests.antt =====
-- The parser of parser/parser.c at one torrent file.
use bite_bit_bitten.Common.{ℕ, ◌+◌, ◌≡◌, Option, List, [], ◌∷◌, ◌++◌, arith, length, negsuc}
use bite_bit_bitten.Common.Outcome.{ok}
use bite_bit_bitten.Bencode.{BenValue}
use bite_bit_bitten.Bencode.Parser.{parse_value}
use bite_bit_bitten.Bencode.Skip.{skip_value, get_info_value_offset}
use bite_bit_bitten.Bencode.Tree.{
  Fields, number, string, list, dict, nil, cons, end, field, encode, decimal_digits, view,
}
use bite_bit_bitten.Bencode.RoundTrip.{parse_value-encode}
use bite_bit_bitten.Bencode.SkipLaws.{skip_value-encode}
use bite_bit_bitten.Bencode.Offsets.{info_of, Marks, get_info_value_offset-Marks}

-- `d3:agei-7e4:infod4:namel2:ab0:eee`
abbrev torrent : Fields
torrent = field (b'a' ∷ b'g' ∷ b'e' ∷ []) (number (negsuc 6)) (
    field (b'i' ∷ b'n' ∷ b'f' ∷ b'o' ∷ [])
      (dict (
        field (b'n' ∷ b'a' ∷ b'm' ∷ b'e' ∷ [])
          (list (cons (string (b'a' ∷ b'b' ∷ [])) (cons (string []) nil))) end))
      end)

abbrev before : List ℕ
before = b'l' ∷ b'i' ∷ b'1' ∷ b'e' ∷ []

abbrev rest : List ℕ
rest = b'e' ∷ []

parse_value-encode_example :
    (v : BenValue) × (parse_value (before ++ (encode (dict torrent) ++ rest)) 100 4
      ≡ ok (v, 4 + length (encode (dict torrent))))
    × (view (before ++ (encode (dict torrent) ++ rest)) v ≡ dict torrent)
unfolding encode decimal_digits
parse_value-encode_example =
    parse_value-encode before (dict torrent) rest 100 (omega arith)
      (omega arith, (((tt, (tt, tt)), tt), tt)) (omega arith)

skip_value-encode_example :
    skip_value (before ++ (encode (dict torrent) ++ rest)) 100 4
    ≡ ok (4 + length (encode (dict torrent)))
unfolding encode decimal_digits
skip_value-encode_example =
    skip_value-encode before (dict torrent) rest 100 (omega arith) (omega arith)

get_info_value_offset-Marks_example :
    (span : Option (ℕ × ℕ)) × (get_info_value_offset (encode (dict torrent) ++ rest) 100 ≡ ok span)
    × Marks (encode (dict torrent) ++ rest) span (info_of torrent)
unfolding encode decimal_digits
get_info_value_offset-Marks_example =
    get_info_value_offset-Marks torrent rest 100 (omega arith) (omega arith)
