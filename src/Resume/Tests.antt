-- ===== src/Resume/Tests.antt =====
-- Runs of the resume files: a `write` that takes three bytes at a time, a `read` that gives two.
use bite_bit_bitten.Common.{
  ℕ, ◌≤◌, min, ◌≡◌, refl, ◌≢◌, ◌⊎◌, Bool, true, false, none, some, List, [], ◌∷◌, arith, length,
  take,
}
use bite_bit_bitten.Common.Outcome.{ok, ◌>>=◌}
use bite_bit_bitten.Resume.{
  Kept, Files, put, pig_name, tmp_name, Calls, write_all, create_resume_file, read_resume_file,
  settle, write_kept, write_loop,
}
use bite_bit_bitten.Resume.Atomic.{kept_bytes, create_resume_file_lem}
use bite_bit_bitten.Resume.ReadBack.{Gives}
use bite_bit_bitten.Resume.RoundTrip.{
  with_fields, fields, read_resume_file-create_resume_file, read_resume_file-cut,
}

abbrev by_three : List ℕ → List ℕ → ℕ
by_three file buf = min 3 (length buf)

abbrev by_two : List ℕ → ℕ → ℕ
by_two input len = min 2 (min len (length input))

abbrev torrent : Kept
torrent = record {
  name = b'a' ∷ [];
  download_path = b'/' ∷ b'd' ∷ 0 ∷ 7 ∷ [];
  bitfield_length = 2;
  bitfield = 0xF0 ∷ 0x80 ∷ [];
}

abbrev empty : Kept
empty = record {
  name = b'a' ∷ [];
  download_path = 0 ∷ 0 ∷ 0 ∷ [];
  bitfield_length = 0;
  bitfield = 0 ∷ 0 ∷ 0 ∷ [];
}

abbrev calls : Calls
calls = record { creates = true; syncs = true; renames = true; opens_dir = true; syncs_dir = true }

abbrev dir : List ℕ
dir = b'/' ∷ b'r' ∷ []

abbrev files : Files
files path = none

abbrev after : Files
after =
    let tmp = tmp_name dir (b'a' ∷ []) in
    let bytes = some (kept_bytes torrent 2) in
    put (put (put files tmp bytes) tmp none) (pig_name dir (b'a' ∷ [])) bytes

by_three-most : (f b : List ℕ) → by_three f b ≤ length b
by_three-most f b = omega arith

by_two-Gives : Gives by_two
by_two-Gives input len = (omega arith, omega arith, λ a b. omega arith)

create_resume_file_lem_example :
    (done : Bool) × (now : Files) × (create_resume_file by_three calls torrent dir files
      ≡ ok (done, now))
    × ((now (pig_name dir torrent.name) ≡ none)
        ⊎ (now (pig_name dir torrent.name) ≡ some (kept_bytes torrent 2)))
    × (done ≡ true → now (pig_name dir torrent.name) ≡ some (kept_bytes torrent 2))
    × ((other : List ℕ)
        → other ≢ tmp_name dir torrent.name
        → other ≢ pig_name dir torrent.name
        → now other ≡ none)
create_resume_file_lem_example =
    create_resume_file_lem by_three calls torrent dir files 2 by_three-most refl (omega arith)
      (omega arith)

created : create_resume_file by_three calls torrent dir files ≡ ok (true, after)
unfolding create_resume_file settle write_kept write_all write_loop
created = refl

read_resume_file-create_resume_file_example :
    read_resume_file by_two empty (after (pig_name dir torrent.name))
    ≡ ok (true, with_fields empty (b'/' ∷ b'd' ∷ []) (0xF0 ∷ 0x80 ∷ []))
read_resume_file-create_resume_file_example =
    read_resume_file-create_resume_file by_three by_two calls torrent empty dir files after 2
      by_three-most by_two-Gives refl (omega arith) refl (omega arith) (omega arith) (omega arith)
      (omega arith) created

read_resume_file-cut_example :
    (read_resume_file by_two empty (some (take 9 (fields (b'/' ∷ []) (0xF0 ∷ [])))) >>= λ r. ok r.0)
    ≡ ok false
read_resume_file-cut_example =
    read_resume_file-cut by_two empty (b'/' ∷ []) (0xF0 ∷ []) 9 by_two-Gives (omega arith)
      (omega arith) (omega arith) (omega arith) (omega arith)
