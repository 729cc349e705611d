-- ===== src/Metainfo/Layout.antt =====
-- `fill_in_calculated_field_in_TR_info` of parser/parser.c: where each file lies in the torrent.
use bite_bit_bitten.Common.{ℕ, zero, suc, ◌+◌, ◌-◌, ◌/◌, ◌^◌, List, [], ◌∷◌, u32, u64}
use bite_bit_bitten.Metainfo.{TrFile, TrInfo}

-- Division by a piece length of 0 traps; the quotient here is 0 then. The results are `uint32_t`.
abbrev pub placed : ℕ → ℕ → TrFile → TrFile
placed piece_length total_size file = record file {
  offset = total_size;
  first_piece = u32 (total_size / piece_length);
  last_piece = u32 (u64 (u64 (total_size + file.length) + 2 ^ 64 - 1) / piece_length);
}

-- The loop with `n` rounds left: the files from here on, and `total_size` at the end.
unfoldable pub fill_files : ℕ → ℕ → ℕ → List TrFile → List TrFile × ℕ
fill_files piece_length zero total_size files = (files, total_size)
fill_files piece_length (suc n) total_size [] = ([], total_size)
fill_files piece_length (suc n) total_size (file ∷ files) =
    let (rest, total) = fill_files piece_length n (u64 (total_size + file.length)) files in
    (placed piece_length total_size file ∷ rest, total)

unfoldable pub fill_in_calculated_field_in_tr_info : TrInfo → TrInfo
unfolding fill_files
fill_in_calculated_field_in_tr_info info =
    let (files, total) = fill_files info.piece_length info.files_count 0 info.files in
    record info { files = files; total_size = total; pieces_count = info.pieces_string_length / 20 }
