-- ===== src/Disk/Tests.antt =====
-- A piece of threads/tasks.c over two files.
use bite_bit_bitten.Common.{ℕ, ◌≡◌, refl, Bool, true, List, [], ◌∷◌, arith}
use bite_bit_bitten.Common.Outcome.{ok}
use bite_bit_bitten.Metainfo.{TrInfo}
use bite_bit_bitten.Metainfo.Build.{fresh_info}
use bite_bit_bitten.Metainfo.Tiling.{Tiled}
use bite_bit_bitten.Disk.{Write, write_piece_to_disk}
use bite_bit_bitten.Disk.Placement.{Placed, write_piece_to_disk_lem}

abbrev all_open : List ℕ → ℕ → ℕ → Bool
all_open path offset count = true

-- Two files of 6 and 5 bytes in pieces of 4: piece 1 ends the first and begins the second.
abbrev two_files : TrInfo
two_files = record fresh_info {
  files =
      record { path = 1 ∷ []; length = 6; offset = 0; first_piece = 0; last_piece = 1 }
      ∷ record { path = 2 ∷ []; length = 5; offset = 6; first_piece = 1; last_piece = 2 }
      ∷ [];
  files_count = 2;
  piece_length = 4;
}

two_files-Tiled : Tiled 4 0 two_files.files 11
two_files-Tiled = (refl, (λ h. omega arith), (refl, (λ h. omega arith), refl))

write_piece_to_disk_lem_example :
    (writes : List Write) × (write_piece_to_disk all_open two_files 1 (5 ∷ 6 ∷ 7 ∷ 8 ∷ [])
      ≡ ok writes)
    × Placed two_files.files 4 (5 ∷ 6 ∷ 7 ∷ 8 ∷ []) writes
write_piece_to_disk_lem_example =
    write_piece_to_disk_lem all_open (λ path offset count. refl) two_files 1 11 (5 ∷ 6 ∷ 7 ∷ 8 ∷ [])
      refl two_files-Tiled (omega arith) (omega arith) (omega arith) (omega arith)
