-- ===== src/Bencode.antt =====
-- parser/parser.c, the bencode half, with its types from types/types.h. A string is a slice of the
-- file's buffer, a start and a length, as in the source: what later writes to the buffer changes
-- the strings. `BEN_list *` and `BEN_pair *` are the two lists of the block, NULL their ends.
pub mod Strtol
pub mod Parser
pub mod Skip
pub mod Tree
pub mod Decimal
pub mod Read
pub mod Written
pub mod Step
pub mod RoundTrip
pub mod Keys
pub mod SkipStep
pub mod SkipLaws
pub mod Offsets
pub mod Runaway
mod Tests
use bite_bit_bitten.Common.{ℕ, ℤ}

pub record BenString : Type 0 where
  pub start : ℕ
  pub length : ℕ

mutual
  pub data BenValue : Type 0 where
    number : ℤ → BenValue
    string : BenString → BenValue
    list : BenList → BenValue
    dict : BenPair → BenValue

  pub data BenList : Type 0 where
    list_end : BenList
    list_node : BenValue → BenList → BenList

  pub data BenPair : Type 0 where
    pair_end : BenPair
    pair_node : BenString → BenValue → BenPair → BenPair
