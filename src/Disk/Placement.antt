-- ===== src/Disk/Placement.antt =====
-- The bytes of a piece land where the torrent has them.
use bite_bit_bitten.Common.{
  ℕ, zero, suc, ◌+◌, ◌-◌, ◌*◌, ◌^◌, ◌≤◌, ◌<◌, min, ◌≡◌, refl, sym, ap, ◌∙◌, subst, ◌⊎◌, inl, inr,
  Bool, true, false, List, [], ◌∷◌, ◌++◌, arith, leb, ◌==◌, leb→le, le→leb, lt→leb, ==_iff,
  Bool-cases, length, take, drop, All, length-take, length-drop, drop-drop, drop_all, slice, u64,
}
use bite_bit_bitten.Common.Outcome.{ok}
use native.Mathlib.Decide.{dec_lt}
use bite_bit_bitten.Metainfo.{TrFile, TrInfo}
use bite_bit_bitten.Metainfo.Tiling.{Tiled}
use bite_bit_bitten.Peer.Bits.{==-ne}
use bite_bit_bitten.Disk.{
  Write, piece_write, file_start, to_write, write_files, write_piece_to_disk,
}

-- The writes put the bytes one behind the other from `at` on, each inside of its file, and go to files
-- of the list in the order of the list, to no file twice.
abbrev pub Placed : List TrFile → ℕ → List ℕ → List Write → Type 0
Placed files at bytes [] = bytes ≡ []
Placed files at bytes (w ∷ writes) =
    (passed later : List TrFile) × (files ≡ passed ++ w.file ∷ later)
    × (w.file.offset + w.offset ≡ at)
    × (w.offset + length w.bytes ≤ w.file.length)
    × (take (length w.bytes) bytes ≡ w.bytes)
    × Placed later (at + length w.bytes) (drop (length w.bytes) bytes) writes

-- one more file in front that is passed over
Placed-pass :
    (f : TrFile) (files : List TrFile) (at : ℕ) (bytes : List ℕ) (writes : List Write)
    → Placed files at bytes writes
    → Placed (f ∷ files) at bytes writes
Placed-pass f files at bytes [] h = h
Placed-pass f files at bytes (w ∷ writes) h =
    (f ∷ h.0, h.1, ap (λ l. f ∷ l) h.2, h.3, h.4, h.5, h.6)

Tiled-le : (pl start stop : ℕ) (files : List TrFile) → Tiled pl start files stop → start ≤ stop
Tiled-le pl start stop [] h = omega arith
Tiled-le pl start stop (f ∷ fs) h = omega (arith, Tiled-le pl (start + f.length) stop fs h.2)

length-piece_write :
    (f : TrFile) (po : ℕ) (piece : List ℕ) (written : ℕ)
    → length (piece_write f po piece written).bytes ≡ to_write f po piece written
length-piece_write f po piece written =
    let n = to_write f po piece written in
    ground (arith, length-take n (drop written piece), length-drop written piece)

leb→gt : (a b : ℕ) → leb a b ≡ false → b < a
leb→gt a b h = elim (dec_lt b a) [ yes gt ↦ gt | no le ↦ let e = le→leb a b (omega arith) in cc ]

-- Where the write begins in the torrent, when the file overlaps what is left of the piece.
file_start_lem :
    (f : TrFile) (po written : ℕ)
    → f.offset ≤ po + written
    → (written ≡ 0) ⊎ (f.offset ≡ po + written)
    → f.offset + file_start f po ≡ po + written
file_start_lem f po written at (inl first) = ground (arith, first)
file_start_lem f po written at (inr later) = ground (arith, later)

to_write_lem :
    (f : TrFile) (po written : ℕ) (piece : List ℕ)
    → f.offset ≤ po + written
    → po + written ≤ f.offset + f.length
    → (written ≡ 0) ⊎ (f.offset ≡ po + written)
    → f.length < 2 ^ 32
    → to_write f po piece written
      ≡ min (length piece - written) (f.offset + f.length - (po + written))
to_write_lem f po written piece at inside where_at small =
    ground (arith, file_start_lem f po written at where_at)

module _ (io : List ℕ → ℕ → ℕ → Bool)
    (open_all : (path : List ℕ) (offset count : ℕ) → io path offset count ≡ true) where
  write_files-skip :
      (n po written : ℕ) (f : TrFile) (fs : List TrFile) (piece : List ℕ)
      → leb (u64 (po + length piece)) f.offset ≡ false
      → leb (u64 (f.offset + f.length)) po ≡ true
      → write_files io (suc n) (f ∷ fs) po piece written ≡ write_files io n fs po piece written
  unfolding write_files
  write_files-skip n po written f fs piece near behind = rw (near, behind) refl

  write_files-last :
      (n po written : ℕ) (f : TrFile) (fs : List TrFile) (piece : List ℕ)
      → leb (u64 (po + length piece)) f.offset ≡ false
      → leb (u64 (f.offset + f.length)) po ≡ false
      → (written + to_write f po piece written == length piece) ≡ true
      → write_files io (suc n) (f ∷ fs) po piece written ≡ ok (piece_write f po piece written ∷ [])
  unfolding write_files
  write_files-last n po written f fs piece near overlaps done =
      rw (near, overlaps, open_all f.path (file_start f po) (to_write f po piece written), done)
        refl

  write_files-more :
      (n po written : ℕ) (f : TrFile) (fs : List TrFile) (piece : List ℕ) (writes : List Write)
      → leb (u64 (po + length piece)) f.offset ≡ false
      → leb (u64 (f.offset + f.length)) po ≡ false
      → (written + to_write f po piece written == length piece) ≡ false
      → write_files io n fs po piece (written + to_write f po piece written) ≡ ok writes
      → write_files io (suc n) (f ∷ fs) po piece written
        ≡ ok (piece_write f po piece written ∷ writes)
  unfolding write_files
  write_files-more n po written f fs piece writes near overlaps more rest =
      rw
        (
          near,
          overlaps,
          open_all f.path (file_start f po) (to_write f po piece written),
          more,
          rest,
        )
        refl

  write_files_lem :
      (pl n start stop piece_offset : ℕ) (files : List TrFile) (piece : List ℕ) (written : ℕ)
      → n ≡ length files
      → Tiled pl start files stop
      → All (λ f. f.length < 2 ^ 32) files
      → stop < 2 ^ 64
      → piece_offset + length piece ≤ stop
      → written < length piece
      → start ≤ piece_offset + written
      → (written ≡ 0) ⊎ (start ≡ piece_offset + written)
      → (writes : List Write) × (write_files io n files piece_offset piece written ≡ ok writes)
        × Placed files (piece_offset + written) (drop written piece) writes
  write_files_lem pl n start stop po [] piece written count tiled small fits inside rest_left at
        where_at =
      absurd (omega arith)
  write_files_lem pl zero start stop po (f ∷ fs) piece written count tiled small fits inside
        rest_left at where_at =
      absurd (omega arith)
  write_files_lem pl (suc n) start stop po (f ∷ fs) piece written count tiled small fits inside
        rest_left at where_at =
      let bound = Tiled-le pl (start + f.length) stop fs tiled.2 in
      let near : leb (u64 (po + length piece)) f.offset ≡ false =
        lt→leb _ _ (omega (arith, tiled.0)) in
      let count_is = length-piece_write f po piece written in
      let c = to_write f po piece written in
      let bytes = slice piece written c in
      let from = drop written piece in
      elim (Bool-cases (leb (u64 (f.offset + f.length)) po)) [
        | inl behind ↦
            let le = leb→le _ _ behind in
            let rest =
              write_files_lem pl n (start + f.length) stop po fs piece written (omega arith) tiled.2
                small.1 fits inside rest_left (omega arith)
                (inl (omega (arith, le, tiled.0, where_at))) in
            (
              rest.0,
              write_files-skip n po written f fs piece near behind ∙ rest.1,
              Placed-pass f fs (po + written) (drop written piece) rest.0 rest.2,
            )
        | inr overlaps ↦
            let gt = leb→gt _ _ overlaps in
            let before : f.offset ≤ po + written = omega (arith, tiled.0) in
            let at_file : (written ≡ 0) ⊎ (f.offset ≡ po + written) = rw tiled.0 where_at in
            let reach : po + written ≤ f.offset + f.length = omega (arith, gt, tiled.0, where_at) in
            let place = file_start_lem f po written before at_file in
            let amount = to_write_lem f po written piece before reach at_file small.0 in
            let within : file_start f po + length bytes ≤ f.length =
              omega (arith, count_is, amount, place, reach) in
            elim (Bool-cases (written + c == length piece)) [
              | inl done ↦
                  let e = (==_iff _ _).0 done in
                  (
                    piece_write f po piece written ∷ [],
                    write_files-last n po written f fs piece near overlaps done,
                    (
                      [],
                      fs,
                      refl,
                      place,
                      within,
                      ap (λ k. take k from) count_is,
                      drop_all (length bytes) from
                          (omega (arith, count_is, e, length-drop written piece)),
                    ),
                  )
              | inr more ↦
                  let ne = ==-ne _ _ more in
                  let rest =
                    write_files_lem pl n (start + f.length) stop po fs piece (written + c)
                      (omega arith) tiled.2 small.1 fits inside (omega (arith, amount, ne))
                      (omega (arith, amount, tiled.0, ne))
                      (inr (omega (arith, amount, tiled.0, ne))) in
                  let to_here : po + (written + c) ≡ po + written + length bytes =
                    omega (arith, count_is) in
                  let left : drop (written + c) piece ≡ drop (length bytes) from =
                    sym (drop-drop c written piece) ∙ ap (λ k. drop k from) (sym count_is) in
                  (
                    piece_write f po piece written ∷ rest.0,
                    write_files-more n po written f fs piece rest.0 near overlaps more rest.1,
                    (
                      [],
                      fs,
                      refl,
                      place,
                      within,
                      ap (λ k. take k from) count_is,
                      subst (λ xs. Placed fs (po + written + length bytes) xs rest.0) left
                          (subst (λ k. Placed fs k (drop (written + c) piece) rest.0) to_here
                            rest.2),
                    ),
                  )
            ]
      ]

  -- When every file opens and takes what is written, the files lie one behind the other up to the end
  -- of the torrent, none of 4 GiB or more, and the piece lies inside of the torrent, the piece is
  -- written in full: the writes put its bytes one behind the other at the offset of the piece, each
  -- inside of its file, and they go to files of the torrent, in their order and to no file twice.
  pub write_piece_to_disk_lem :
      (info : TrInfo) (piece_idx stop : ℕ) (piece : List ℕ)
      → info.files_count ≡ length info.files
      → Tiled info.piece_length 0 info.files stop
      → All (λ f. f.length < 2 ^ 32) info.files
      → stop < 2 ^ 64
      → 0 < length piece
      → piece_idx * info.piece_length + length piece ≤ stop
      → (writes : List Write) × (write_piece_to_disk io info piece_idx piece ≡ ok writes)
        × Placed info.files (piece_idx * info.piece_length) piece writes
  unfolding write_piece_to_disk
  write_piece_to_disk_lem info piece_idx stop piece count tiled small fits nonempty inside =
      let po = piece_idx * info.piece_length in
      let word : u64 po ≡ po = omega arith in
      let zero_add : po + 0 ≡ po = omega arith in
      let all =
        write_files_lem info.piece_length info.files_count 0 stop po info.files piece 0 count tiled
          small fits inside nonempty (omega arith) (inl refl) in
      (
        all.0,
        ap (λ o. write_files io info.files_count info.files o piece 0) word ∙ all.1,
        subst (λ k. Placed info.files k piece all.0) zero_add all.2,
      )
