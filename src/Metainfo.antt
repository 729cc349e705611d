-- ===== src/Metainfo.antt =====
-- The second half of parser/parser.c: from the parsed dictionary of a torrent file to a `TR_info`
-- of types/types.h. Strings stay slices of the buffer until they are copied, and the file names
-- are cleaned in the buffer itself.
pub mod Sanitize
pub mod Fields
pub mod Key
pub mod Build
pub mod Layout
pub mod Clean
pub mod Names
pub mod Tiling
pub mod InfoHash
pub mod Lookup
pub mod Trackers
mod Tests
use bite_bit_bitten.Common.{ℕ, ℤ, Option, List}

pub record TrTracker : Type 0 where
  pub announce : List ℕ
  pub tier : ℕ

pub record TrFile : Type 0 where
  pub path : List ℕ
  pub length : ℕ
  pub offset : ℕ
  pub first_piece : ℕ
  pub last_piece : ℕ

-- C strings are their bytes, and `none` is a NULL pointer. `info_hash` is filled by the caller.
pub record TrInfo : Type 0 where
  pub name : List ℕ
  pub created_by : Option (List ℕ)
  pub comment : Option (List ℕ)
  pub creation_date : ℤ
  pub pieces : List ℕ
  pub pieces_string_length : ℕ
  pub pieces_count : ℕ
  pub total_size : ℕ
  pub trackers : List TrTracker
  pub trackers_count : ℕ
  pub files : List TrFile
  pub files_count : ℕ
  pub piece_length : ℕ
