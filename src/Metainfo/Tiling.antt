-- ===== src/Metainfo/Tiling.antt =====
-- The files of a torrent lie one behind the other.
use bite_bit_bitten.Common.{
  ℕ, zero, suc, ◌+◌, ◌-◌, ◌*◌, ◌/◌, ◌^◌, ◌≤◌, ◌<◌, ◌≡◌, refl, sym, ap, ◌∙◌, none, List, [], ◌∷◌,
  arith, length, u32, u64,
}
use bite_bit_bitten.Common.Outcome.{ok, >>=-eq-ok, ok-injective}
use native.Mathlib.Nat.{le-div_iff_mul-le}
use native.Mathlib.Decide.{dec_lt}
use bite_bit_bitten.Bencode.{BenPair}
use bite_bit_bitten.Metainfo.{TrFile, TrInfo}
use bite_bit_bitten.Metainfo.Key
use bite_bit_bitten.Metainfo.Fields.{get_ben_value_by_key, required, as_number}
use bite_bit_bitten.Metainfo.Build.{files_of_info}
use bite_bit_bitten.Metainfo.Layout.{placed, fill_files, fill_in_calculated_field_in_tr_info}

unfoldable pub sum_lengths : List TrFile → ℕ
sum_lengths [] = 0
sum_lengths (f ∷ fs) = f.length + sum_lengths fs

-- A file that is not empty begins in its first piece and ends in its last.
abbrev pub InPieces : ℕ → TrFile → Type 0
InPieces piece_length f =
    0 < f.length
    → (f.first_piece * piece_length ≤ f.offset)
      × (f.offset < (f.first_piece + 1) * piece_length)
      × (f.last_piece * piece_length < f.offset + f.length)
      × (f.offset + f.length ≤ (f.last_piece + 1) * piece_length)

-- The files fill the range from `start` to `stop` with no gap, each that is not empty in the pieces
-- that it names.
abbrev pub Tiled : ℕ → ℕ → List TrFile → ℕ → Type 0
Tiled piece_length start [] stop = start ≡ stop
Tiled piece_length start (f ∷ fs) stop =
    (f.offset ≡ start) × InPieces piece_length f × Tiled piece_length (start + f.length) fs stop

quotient_range : (n d : ℕ) → 0 < d → (n / d * d ≤ n) × (n < (n / d + 1) * d)
quotient_range n d h = grind arith

quotient_mono : (a b d : ℕ) → a ≤ b → a / d ≤ b / d
quotient_mono a b d h = elim (dec_lt 0 d) [
  | yes some_d ↦ (le-div_iff_mul-le some_d).1 (omega (arith, (quotient_range a d some_d).0))
  | no no_d ↦ let e : d ≡ 0 = omega arith in rw e (omega arith)
]

placed-InPieces :
    (piece_length total : ℕ) (f : TrFile)
    → 0 < piece_length
    → (total + f.length) / piece_length < 2 ^ 32
    → total + f.length < 2 ^ 64
    → InPieces piece_length (placed piece_length total f)
placed-InPieces pl total f some_pl few small nonempty =
    let last = total + f.length - 1 in
    let end : u64 (u64 (total + f.length) + 2 ^ 64 - 1) ≡ last = omega arith in
    let q : u32 (total / pl) ≡ total / pl =
      omega (arith, quotient_mono total (total + f.length) pl (omega arith)) in
    let r : u32 (last / pl) ≡ last / pl =
      omega (arith, quotient_mono last (total + f.length) pl (omega arith)) in
    let first_range = quotient_range total pl some_pl in
    let last_range = quotient_range last pl some_pl in
    rw (end, q, r) (first_range.0, first_range.1, omega arith, omega arith)

fill_files_end : (pl n total : ℕ) → fill_files pl n total [] ≡ ([], total)
unfolding fill_files
fill_files_end pl zero total = refl
fill_files_end pl (suc n) total = refl

fill_files_step :
    (pl n total : ℕ) (f : TrFile) (fs : List TrFile)
    → total + f.length < 2 ^ 64
    → fill_files pl (suc n) total (f ∷ fs) ≡ (
      placed pl total f ∷ (fill_files pl n (total + f.length) fs).0,
      (fill_files pl n (total + f.length) fs).1,
    )
unfolding fill_files
fill_files_step pl n total f fs small =
    let next : u64 (total + f.length) ≡ total + f.length = omega arith in
    ap (λ t. (placed pl total f ∷ (fill_files pl n t fs).0, (fill_files pl n t fs).1)) next

fill_files-Tiled :
    (pl total : ℕ) (files : List TrFile)
    → 0 < pl
    → (total + sum_lengths files) / pl < 2 ^ 32
    → total + sum_lengths files < 2 ^ 64
    → ((fill_files pl (length files) total files).1 ≡ total + sum_lengths files)
      × Tiled pl total (fill_files pl (length files) total files).0 (total + sum_lengths files)
unfolding sum_lengths
fill_files-Tiled pl total [] some_pl few small =
    rw (fill_files_end pl 0 total) (omega arith, omega arith)
fill_files-Tiled pl total (f ∷ fs) some_pl few small =
    let next = fill_files_step pl (length fs) total f fs (omega arith) in
    let sum : total + (f.length + sum_lengths fs) ≡ total + f.length + sum_lengths fs =
      omega arith in
    let rest = fill_files-Tiled pl (total + f.length) fs some_pl (rw sum at few) (omega arith) in
    let here =
      placed-InPieces pl total f some_pl
        (omega (
          arith,
          quotient_mono (total + f.length) (total + f.length + sum_lengths fs) pl (omega arith),
          rw sum at few,
        ))
        (omega arith) in
    rw (next, sum) (rest.0, (refl, here, rest.1))

-- When the count is that of the files, the piece length is not 0 and neither the sizes nor the piece
-- numbers overflow, the calculated fields say where the files lie: one behind the other from 0 to the
-- total size, which is the sum of their lengths, and each file that is not empty begins in its first
-- piece and ends in its last. Of the pieces of an empty file nothing is stated.
pub fill_in_calculated_field-Tiled :
    (info : TrInfo)
    → info.files_count ≡ length info.files
    → 0 < info.piece_length
    → sum_lengths info.files / info.piece_length < 2 ^ 32
    → sum_lengths info.files < 2 ^ 64
    → let filled = fill_in_calculated_field_in_tr_info info in
      (filled.total_size ≡ sum_lengths info.files)
      × Tiled info.piece_length 0 filled.files (sum_lengths info.files)
unfolding fill_in_calculated_field_in_tr_info
fill_in_calculated_field-Tiled info count some_pl few small =
    let zero_add : 0 + sum_lengths info.files ≡ sum_lengths info.files = omega arith in
    let all =
      fill_files-Tiled info.piece_length 0 info.files some_pl (rw zero_add few) (omega arith) in
    simp count (rw zero_add at all)

-- The last piece of an empty file at the beginning of a torrent is counted from 2 ^ 64 - 1.
pub placed-empty :
    (piece_length : ℕ) (f : TrFile)
    → f.length ≡ 0
    → (placed piece_length 0 f).last_piece ≡ u32 ((2 ^ 64 - 1) / piece_length)
placed-empty pl f empty =
    let end : u64 (u64 (0 + f.length) + 2 ^ 64 - 1) ≡ 2 ^ 64 - 1 = omega (arith, empty) in
    ap (λ n. u32 (n / pl)) end

fill_files-none :
    (pl n total : ℕ) (files : List TrFile) → n ≡ 0 → (fill_files pl n total files).1 ≡ total
unfolding fill_files
fill_files-none pl zero total files h = refl
fill_files-none pl (suc n) total files h = absurd (omega arith)

-- A torrent of a single file has the total size 0 whatever its length: the branch for it leaves the
-- count of files at 0, which the calculation goes by.
pub single_file-total_size :
    (buffer : List ℕ) (b_info : BenPair) (info : TrInfo) {out : List ℕ × TrInfo}
    → info.files_count ≡ 0
    → get_ben_value_by_key buffer b_info Key.files ≡ ok none
    → files_of_info buffer b_info info ≡ ok out
    → (fill_in_calculated_field_in_tr_info out.1).total_size ≡ 0
unfolding files_of_info fill_in_calculated_field_in_tr_info
single_file-total_size buffer b_info info {out} count no_files e =
    let len = >>=-eq-ok (get_ben_value_by_key buffer b_info Key.length) _ (rw no_files at e) in
    let value = >>=-eq-ok (required len.0) _ len.2 in
    let n = >>=-eq-ok (as_number value.0) _ value.2 in
    let same : out.1.files_count ≡ info.files_count =
      ap (λ o. o.1.files_count) (sym (ok-injective n.2)) in
    fill_files-none out.1.piece_length out.1.files_count 0 out.1.files (same ∙ count)
