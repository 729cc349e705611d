-- ===== src/Metainfo/Tests.antt =====
-- The metainfo half of parser/parser.c at small files.
use bite_bit_bitten.Common.{
  ℕ, inl, ◌≡◌, refl, Option, none, some, List, [], ◌∷◌, ◌++◌, map, arith, pos,
}
use bite_bit_bitten.Common.Outcome.{ok, ◌>>=◌}
use bite_bit_bitten.Bencode.{BenString, BenValue, BenPair}
use bite_bit_bitten.Bencode.Strtol.{strncmp_eq}
use bite_bit_bitten.Bencode.Tree.{
  Tree, Fields, number, string, list, dict, end, field, encode, encode_fields, locate,
  locate_fields, decimal_digits,
}
use bite_bit_bitten.Metainfo.{TrFile, TrInfo}
use bite_bit_bitten.Metainfo.Key
use bite_bit_bitten.Bencode.Keys.{same_bytes}
use bite_bit_bitten.Bencode.Offsets.{info_of}
use bite_bit_bitten.Sha1.Digest.{fips_hash}
use bite_bit_bitten.Metainfo.InfoHash.{get_info_hash, get_info_hash-fips}
use bite_bit_bitten.Metainfo.Sanitize.{reserved, sanitize_file_ben_string}
use bite_bit_bitten.Metainfo.Fields.{as_dict, get_ben_value_by_key}
use bite_bit_bitten.Metainfo.Build.{parse_ben_announce_to_tr_info, fresh_info, files_of_info}
use bite_bit_bitten.Metainfo.Layout.{fill_in_calculated_field_in_tr_info}
use bite_bit_bitten.Metainfo.Clean.{clean, narrowed, sanitize_file_ben_string_lem}
use bite_bit_bitten.Metainfo.Lookup.{field_of, Stands, get_ben_value_by_key-Stands}
use bite_bit_bitten.Bencode.Parser.{parse_dict}
use bite_bit_bitten.Metainfo.Trackers.{tiers_tree, numbered, parse_dict-announce}
use bite_bit_bitten.Metainfo.Tiling.{sum_lengths, Tiled, fill_in_calculated_field-Tiled}

-- `9: ../a?b..:`: a hostile name between other bytes
abbrev hostile : List ℕ
hostile = b' ' ∷ b'.' ∷ b'.' ∷ b'/' ∷ b'a' ∷ b'?' ∷ b'b' ∷ b'.' ∷ b'.' ∷ []

abbrev before : List ℕ
before = b'9' ∷ b':' ∷ []

abbrev after : List ℕ
after = b'e' ∷ []

abbrev hostile_slice : BenString
hostile_slice = record { start = 2; length = 9 }

abbrev cleaned : List ℕ
cleaned = b'9' ∷ b':' ∷ b' ' ∷ b'.' ∷ b'.' ∷ b'_' ∷ b'a' ∷ b'_' ∷ b'b' ∷ b'.' ∷ b'.' ∷ b'e' ∷ []

sanitize_file_ben_string_lem_example :
    sanitize_file_ben_string reserved (before ++ (hostile ++ after)) hostile_slice
    ≡ ok (before ++ (map clean hostile ++ after), narrowed 2 hostile)
sanitize_file_ben_string_lem_example =
    sanitize_file_ben_string_lem before hostile after (omega arith)

-- `6:lengthi9e` behind a `d`
abbrev one_length : Fields
one_length = field Key.length (number (pos 9)) end

get_ben_value_by_key-Stands_example :
    (v : Option BenValue) × (get_ben_value_by_key
        ((b'd' ∷ []) ++ (encode_fields one_length ++ []))
        (locate_fields 1 one_length)
        Key.length
      ≡ ok v)
    × Stands ((b'd' ∷ []) ++ (encode_fields one_length ++ [])) v (field_of Key.length one_length)
unfolding encode decimal_digits
get_ben_value_by_key-Stands_example =
    get_ben_value_by_key-Stands (b'd' ∷ []) one_length [] Key.length (omega arith) (omega arith)

abbrev file_of : ℕ → TrFile
file_of n = record { path = []; length = n; offset = 0; first_piece = 0; last_piece = 0 }

-- Files of 10, 0 and 7 bytes in pieces of 4.
abbrev three_files : TrInfo
three_files = record fresh_info {
  files = file_of 10 ∷ file_of 0 ∷ file_of 7 ∷ [];
  files_count = 3;
  piece_length = 4;
}

fill_in_calculated_field-Tiled_example :
    ((fill_in_calculated_field_in_tr_info three_files).total_size ≡ sum_lengths three_files.files)
    × Tiled 4 0
        (fill_in_calculated_field_in_tr_info three_files).files
        (sum_lengths three_files.files)
unfolding sum_lengths
fill_in_calculated_field-Tiled_example =
    fill_in_calculated_field-Tiled three_files refl (omega arith) (omega arith) (omega arith)

-- `d6:lengthi9ee`, an info dictionary of a single file
abbrev single_file : List ℕ
single_file = b'd' ∷ (encode_fields one_length ++ [])

abbrev single_pair : BenPair
single_pair = locate_fields 1 one_length

no_files : get_ben_value_by_key single_file single_pair Key.files ≡ ok none
unfolding get_ben_value_by_key encode decimal_digits locate
no_files = refl

one_file :
    files_of_info single_file single_pair fresh_info
    ≡ ok (single_file, record fresh_info { files = file_of 9 ∷ [] })
unfolding files_of_info get_ben_value_by_key encode decimal_digits locate strncmp_eq
one_file = refl

abbrev small_info : Tree
small_info = dict (field Key.name (string (b'a' ∷ [])) end)

abbrev small_torrent : Fields
small_torrent = field Key.info small_info end

get_info_hash-fips_example :
    get_info_hash (encode (dict small_torrent) ++ after) 100 ≡ ok (fips_hash (encode small_info))
unfolding encode decimal_digits info_of same_bytes
get_info_hash-fips_example =
    get_info_hash-fips small_torrent small_info after 100 (omega arith) (omega arith) refl
      (omega arith) (λ e. absurd (omega arith))

-- `d8:announce1:a13:announce-listll1:b1:cel1:deee`
abbrev two_tiers : List (List (List ℕ))
two_tiers = ((b'b' ∷ []) ∷ (b'c' ∷ []) ∷ []) ∷ ((b'd' ∷ []) ∷ []) ∷ []

abbrev tracker_fields : Fields
tracker_fields =
    field Key.announce (string (b'a' ∷ []))
      (field Key.announce_list (list (tiers_tree two_tiers)) end)

has_tiers : field_of Key.announce_list tracker_fields ≡ some (list (tiers_tree two_tiers))
unfolding field_of same_bytes
has_tiers = refl

parse_dict-announce_example :
    (parse_dict (encode (dict tracker_fields)) 200 0 >>= λ r.
    as_dict r.0 >>= λ d. parse_ben_announce_to_tr_info (encode (dict tracker_fields)) d fresh_info)
    ≡ ok (record fresh_info {
      trackers =
          record { announce = b'b' ∷ []; tier = 0 }
          ∷ record { announce = b'c' ∷ []; tier = 0 }
          ∷ record { announce = b'd' ∷ []; tier = 1 }
          ∷ [];
      trackers_count = 3;
    })
unfolding encode decimal_digits
parse_dict-announce_example =
    parse_dict-announce tracker_fields 200 fresh_info (ok (numbered 0 two_tiers)) (omega arith)
      (tt, ((((tt, (tt, tt)), ((tt, tt), tt)), tt))) (omega arith)
      (inl (two_tiers, has_tiers, refl))
