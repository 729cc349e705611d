-- ===== src/Disk.antt =====
-- `write_piece_to_disk` of threads/tasks.c: a piece goes to the files that it overlaps.
pub mod Placement
mod Tests
use bite_bit_bitten.Common.{
  ℕ, zero, suc, ◌+◌, ◌-◌, ◌*◌, Bool, not, List, [], ◌∷◌, ltb, leb, ◌==◌, if◌then◌else◌, length,
  slice, u32, u64,
}
use bite_bit_bitten.Common.Outcome.{Outcome, ok, failed, fault, ◌>>=◌}
use bite_bit_bitten.Metainfo.{TrFile, TrInfo}

-- a `pwrite` to the file at an offset of it
pub record Write : Type 0 where
  pub file : TrFile
  pub offset : ℕ
  pub bytes : List ℕ

abbrev pub file_start : TrFile → ℕ → ℕ
file_start file piece_offset =
    if ltb file.offset piece_offset then piece_offset - file.offset else 0

-- `written` is at most the length of the piece.
abbrev pub to_write : TrFile → ℕ → List ℕ → ℕ → ℕ
to_write file piece_offset piece written =
    let room = u32 (file.length - file_start file piece_offset) in
    if ltb (length piece - written) room then length piece - written else room

abbrev pub piece_write : TrFile → ℕ → List ℕ → ℕ → Write
piece_write file piece_offset piece written = record {
  file = file;
  offset = file_start file piece_offset;
  bytes = slice piece written (to_write file piece_offset piece written);
}

-- `open` and `pwrite` are the system's: `io` says whether the file at a path opens and takes so many
-- bytes at an offset in full.
module _ (io : List ℕ → ℕ → ℕ → Bool) where
  -- The loop with `n` files left: the writes, or `failed` for a false.
  unfoldable pub write_files : ℕ → List TrFile → ℕ → List ℕ → ℕ → Outcome (List Write)
  write_files zero files piece_offset piece written = ok []
  write_files (suc n) [] piece_offset piece written = fault
  write_files (suc n) (file ∷ files) piece_offset piece written =
      let skip = write_files n files piece_offset piece written in
      let count = to_write file piece_offset piece written in
      let here = piece_write file piece_offset piece written in
      let more = write_files n files piece_offset piece (written + count) in
      if leb (u64 (piece_offset + length piece)) file.offset
      then ok []
      else if leb (u64 (file.offset + file.length)) piece_offset
      then skip
      else if not (io file.path (file_start file piece_offset) count)
      then failed
      else if written + count == length piece
      then ok (here ∷ [])
      else more >>= λ writes. ok (here ∷ writes)

  -- `data_len` is the length of the list.
  unfoldable pub write_piece_to_disk : TrInfo → ℕ → List ℕ → Outcome (List Write)
  unfolding write_files
  write_piece_to_disk info piece_idx piece =
      write_files info.files_count info.files (u64 (piece_idx * info.piece_length)) piece 0
