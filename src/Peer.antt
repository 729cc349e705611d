-- ===== src/Peer.antt =====
-- The conversation with a peer: announcer/announcer.c from `handle_message` on, over the
-- structures `TR_peer` and `TR_torrent` of types/types.h. A connection is a stream of bytes each
-- way: `input` holds what the socket still yields and `sent` what was written to it. The slots of a
-- peer in `bitfield_slab` and `piece_buf_slab` are lists, and an access outside them is a fault.
pub mod Bitfield
pub mod Request
pub mod Message
pub mod Bits
pub mod Blocks
pub mod Assign
pub mod Have
pub mod Mask
pub mod Buffer
pub mod Pieces
pub mod Download
pub mod Results
pub mod Outcomes
mod Tests
use bite_bit_bitten.Common.{ℕ, List, ℤ}

-- the fields of `TR_peer` that the messages read or write
pub record TrPeer : Type 0 where
  pub bitmask_state : ℕ
  pub bitfield : List ℕ
  pub current_piece : ℤ
  pub blocks_received : ℕ
  pub piece_buf : List ℕ
  pub failed_tries : ℕ
  pub sent : List ℕ

-- the fields of `TR_torrent`, and of its `info`, that the messages read or write
pub record TrTorrent : Type 0 where
  pub bitfield : List ℕ
  pub requested_pieces : List ℕ
  pub pieces_count : ℕ
  pub total_size : ℕ
  pub piece_length : ℕ
  pub downloaded : ℕ

-- The argument of `task_sha1_verify`; `bytes` are what `data` points at when it is pushed.
pub record PieceTask : Type 0 where
  pub piece_idx : ℕ
  pub data_len : ℕ
  pub bytes : List ℕ

-- `tasks` holds what went to the thread pool.
pub record Link : Type 0 where
  pub peer : TrPeer
  pub torrent : TrTorrent
  pub input : List ℕ
  pub tasks : List PieceTask
