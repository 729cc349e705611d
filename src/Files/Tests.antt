-- ===== src/Files/Tests.antt =====
-- Runs of the copy of a torrent file.
use bite_bit_bitten.Common.{
  ℕ, ◌≤◌, ◌≡◌, refl, Bool, true, false, none, some, List, [], ◌∷◌, length, same_list,
}
use bite_bit_bitten.Common.Outcome.{ok}
use bite_bit_bitten.Resume.{Files, put}
use bite_bit_bitten.Files.{copy_torrent_file, dir_calls, before_last_slash}
use bite_bit_bitten.Files.Copy.{copy_torrent_file_lem}

abbrev here : List ℕ
here = b'a' ∷ []

abbrev there : List ℕ
there = b'b' ∷ []

abbrev one_file : Files
one_file = put (λ path. none) here (some (1 ∷ 2 ∷ 3 ∷ []))

abbrev takes_all : List ℕ → List ℕ → ℕ
takes_all written chunk = length chunk

-- Closing leaves two bytes at most.
abbrev keeps : List ℕ → ℕ
keeps written = 2

copy_torrent_file_lem_example :
    (done : Bool) × (after : Files) × (copy_torrent_file takes_all keeps none true here there
        one_file
      ≡ ok (done, after))
    × (done ≡ true → after there ≡ some (1 ∷ 2 ∷ []))
    × (done ≡ true → 3 ≤ 2 → after there ≡ some (1 ∷ 2 ∷ 3 ∷ []))
    × (true ≡ true
        → ((w : List ℕ) (chunk : List ℕ) → takes_all w chunk ≡ length chunk)
        → done ≡ true)
    × ((other : List ℕ) → same_list other there ≡ false → after other ≡ one_file other)
copy_torrent_file_lem_example =
    copy_torrent_file_lem takes_all keeps true here there (1 ∷ 2 ∷ 3 ∷ []) one_file refl refl

last_slash_run :
    before_last_slash (b'a' ∷ b'/' ∷ b'b' ∷ b'/' ∷ b'c' ∷ []) ≡ some (b'a' ∷ b'/' ∷ b'b' ∷ [])
last_slash_run = refl

dir_calls_run :
    dir_calls [] (b'/' ∷ b'a' ∷ b'/' ∷ b'b' ∷ [])
    ≡ (b'/' ∷ b'a' ∷ []) ∷ (b'/' ∷ b'a' ∷ b'/' ∷ b'b' ∷ []) ∷ []
dir_calls_run = refl
