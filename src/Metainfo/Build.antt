-- ===== src/Metainfo/Build.antt =====
-- `BEN_pairs_to_TR_info` of parser/parser.c and what it is made of. The buffer is threaded through,
-- since cleaning a file name writes to it. `failed` stands for the false or NULL of the code, and
-- the allocations of the arena are taken to succeed.
use bite_bit_bitten.Common.{
  ℕ, ◌+◌, Option, none, some, List, [], ◌∷◌, ◌++◌, length, ℤ, pos, to_word,
}
use bite_bit_bitten.Common.Outcome.{Outcome, ok, ◌>>=◌}
use bite_bit_bitten.Bencode.{BenString, BenList, BenPair, list_end, list_node}
use bite_bit_bitten.Metainfo.Key
use bite_bit_bitten.Metainfo.{TrTracker, TrFile, TrInfo}
use bite_bit_bitten.Metainfo.Sanitize.{reserved, sanitize_file_ben_string}
use bite_bit_bitten.Metainfo.Fields.{
  get_ben_value_by_key, as_number, as_string, as_list, as_dict, slice_bytes, ben_string_to_c_string,
  required,
}

-- what `arena_push_struct` gives on a fresh arena: pages of zeros
abbrev pub fresh_info : TrInfo
fresh_info = record {
  name = [];
  created_by = none;
  comment = none;
  creation_date = pos 0;
  pieces = [];
  pieces_string_length = 0;
  pieces_count = 0;
  total_size = 0;
  trackers = [];
  trackers_count = 0;
  files = [];
  files_count = 0;
  piece_length = 0;
}

-- the inner loop over the trackers of a tier
unfoldable pub tier_trackers : List ℕ → ℕ → BenList → Outcome (List TrTracker)
tier_trackers buffer tier list_end = ok []
tier_trackers buffer tier (list_node v next) = do
  s ← as_string v
  announce ← ben_string_to_c_string buffer s
  rest ← tier_trackers buffer tier next
  ok (record { announce = announce; tier = tier } ∷ rest)

unfoldable pub all_trackers : List ℕ → ℕ → BenList → Outcome (List TrTracker)
unfolding tier_trackers
all_trackers buffer tier list_end = ok []
all_trackers buffer tier (list_node v next) = do
  l ← as_list v
  here ← tier_trackers buffer tier l
  rest ← all_trackers buffer (tier + 1) next
  ok (here ++ rest)

unfoldable pub parse_ben_announce_to_tr_info : List ℕ → BenPair → TrInfo → Outcome TrInfo
unfolding all_trackers get_ben_value_by_key
parse_ben_announce_to_tr_info buffer pair info =
    get_ben_value_by_key buffer pair Key.announce_list >>= λ found. elim found [
      | some v ↦ as_list v >>= λ tiers. all_trackers buffer 0 tiers >>= λ trackers.
          ok (record info { trackers = trackers; trackers_count = length trackers })
      | none ↦ get_ben_value_by_key buffer pair Key.announce >>= λ single. required single >>= λ v.
          as_string v >>= λ s. ben_string_to_c_string buffer s >>= λ announce. ok (record info {
            trackers = record { announce = announce; tier = 0 } ∷ [];
            trackers_count = 1;
          })
    ]

-- The first loop cleans each component in the buffer, the second joins what is left of them, each
-- behind a `/`.
unfoldable pub sanitize_path : List ℕ → BenList → Outcome (List ℕ × List BenString)
sanitize_path buffer list_end = ok (buffer, [])
sanitize_path buffer (list_node v next) =
    let more = λ (b : List ℕ). sanitize_path b next in
    as_string v >>= λ s. sanitize_file_ben_string reserved buffer s >>= λ (buffer', s').
    required s' >>= λ part. more buffer' >>= λ (buffer'', parts). ok (buffer'', part ∷ parts)

unfoldable pub join_path : List ℕ → List BenString → Outcome (List ℕ)
join_path buffer [] = ok []
join_path buffer (s ∷ parts) =
    slice_bytes buffer s >>= λ bytes. join_path buffer parts >>= λ rest. ok (b'/' ∷ (bytes ++ rest))

unfoldable pub parse_ben_list_to_path_c_string : List ℕ → BenList → Outcome (List ℕ × List ℕ)
unfolding sanitize_path join_path
parse_ben_list_to_path_c_string buffer l = sanitize_path buffer l >>= λ (buffer', parts).
    join_path buffer' parts >>= λ path. ok (buffer', path)

-- one entry of the list of files; the calculated fields are filled later
abbrev pub file_entry : ℤ → List ℕ → TrFile
file_entry len path = record {
  path = path;
  length = to_word 64 len;
  offset = 0;
  first_piece = 0;
  last_piece = 0;
}

unfoldable pub multifile_files : List ℕ → BenList → Outcome (List ℕ × List TrFile)
unfolding parse_ben_list_to_path_c_string
multifile_files buffer list_end = ok (buffer, [])
multifile_files buffer (list_node v next) =
    let more = λ (b : List ℕ). multifile_files b next in
    do
      d ← as_dict v
      len ← (get_ben_value_by_key buffer d Key.length >>= required)
      n ← as_number len
      path_value ← (get_ben_value_by_key buffer d Key.path >>= required)
      l ← as_list path_value
      (buffer', path) ← parse_ben_list_to_path_c_string buffer l
      (buffer'', rest) ← more buffer'
      ok (buffer'', file_entry n path ∷ rest)

unfoldable pub parse_ben_multifile_list_to_tr_info :
    List ℕ → BenList → TrInfo → Outcome (List ℕ × TrInfo)
unfolding multifile_files
parse_ben_multifile_list_to_tr_info buffer l info = multifile_files buffer l >>= λ (buffer', files).
    ok (buffer', record info { files = files; files_count = length files })

unfoldable pub parse_ben_pieces_to_tr_info : List ℕ → BenString → TrInfo → Outcome TrInfo
parse_ben_pieces_to_tr_info buffer s info = slice_bytes buffer s >>= λ bytes.
    ok (record info { pieces = bytes; pieces_string_length = s.length })

-- A single file takes the name of the torrent; its branch does not set `files_count`.
unfoldable pub files_of_info : List ℕ → BenPair → TrInfo → Outcome (List ℕ × TrInfo)
unfolding get_ben_value_by_key
files_of_info buffer b_info info = get_ben_value_by_key buffer b_info Key.files >>= λ files.
    elim files [
      | some v ↦ as_list v >>= λ l. parse_ben_multifile_list_to_tr_info buffer l info
      | none ↦ get_ben_value_by_key buffer b_info Key.length >>= λ len. required len >>= λ v.
          as_number v >>= λ n. ok (buffer, record info { files = file_entry n info.name ∷ [] })
    ]

unfoldable pub parse_ben_info_to_tr_info : List ℕ → BenPair → TrInfo → Outcome (List ℕ × TrInfo)
unfolding files_of_info parse_ben_pieces_to_tr_info
parse_ben_info_to_tr_info buffer b_info info = do
  name_value ← (get_ben_value_by_key buffer b_info Key.name >>= required)
  name_string ← as_string name_value
  (buffer', cleaned) ← sanitize_file_ben_string reserved buffer name_string
  name_slice ← required cleaned
  name ← ben_string_to_c_string buffer' name_slice
  piece_length_value ← (get_ben_value_by_key buffer' b_info Key.piece_length >>= required)
  piece_length ← as_number piece_length_value
  pieces_value ← (get_ben_value_by_key buffer' b_info Key.pieces >>= required)
  pieces ← as_string pieces_value
  info' ←
      parse_ben_pieces_to_tr_info buffer' pieces
        (record info { name = name; piece_length = to_word 32 piece_length })
  files_of_info buffer' b_info info'

-- an optional string
unfoldable pub optional_string : List ℕ → BenPair → List ℕ → Outcome (Option (List ℕ))
unfolding get_ben_value_by_key
optional_string buffer pair key = get_ben_value_by_key buffer pair key >>= λ found. elim found [
  | none ↦ ok none
  | some v ↦ as_string v >>= λ s. ben_string_to_c_string buffer s >>= λ text. ok (some text)
]

unfoldable pub optional_number : List ℕ → BenPair → List ℕ → ℤ → Outcome ℤ
unfolding get_ben_value_by_key
optional_number buffer pair key default = get_ben_value_by_key buffer pair key >>= λ found.
    elim found [ none ↦ ok default | some v ↦ as_number v ]

unfoldable pub ben_pairs_to_tr_info : List ℕ → BenPair → Outcome (List ℕ × TrInfo)
unfolding parse_ben_announce_to_tr_info parse_ben_info_to_tr_info optional_string optional_number
ben_pairs_to_tr_info buffer pair = do
  announced ← parse_ben_announce_to_tr_info buffer pair fresh_info
  info_value ← (get_ben_value_by_key buffer pair Key.info >>= required)
  b_info ← as_dict info_value
  (buffer', info) ← parse_ben_info_to_tr_info buffer b_info announced
  created_by ← optional_string buffer' pair Key.created_by
  comment ← optional_string buffer' pair Key.comment
  creation_date ← optional_number buffer' pair Key.creation_date info.creation_date
  ok (
    buffer',
    record info { created_by = created_by; comment = comment; creation_date = creation_date },
  )
