-- ===== src/Swarm.antt =====
-- The peers of a torrent: `TR_peer` and `TR_swarm` of types/types.h. The structures of the peers are
-- a store, and a pointer to one of them is its place in it.
pub mod Pool
pub mod Known
pub mod Merge
pub mod Proper
pub mod Pick
pub mod Refill
pub mod Handshake
pub mod Connections
pub mod Links
pub mod Slots
mod Tests
use bite_bit_bitten.Common.{ℕ, List, get_elem?, set, ℤ}
use bite_bit_bitten.Common.Outcome.{of_option, Outcome}

pub data PeerState : Type 0 where
  not_connected connecting connected handshaking banned : PeerState

-- `bitfield` and `piece_buf` are the places in the slabs of the swarm where they point.
pub record TrPeer : Type 0 where
  pub ip : ℕ
  pub port : ℕ
  pub sock : ℤ
  pub peer_state : PeerState
  pub bitfield : ℕ
  pub piece_buf : ℕ
  pub last_tried : ℕ
  pub failed_tries : ℕ
  pub current_piece : ℤ
  pub blocks_received : ℕ
  pub sent : List ℕ

-- `store` holds the structures; `peer_pool` and `peers` are the arrays of pointers.
pub record TrSwarm : Type 0 where
  pub store : List TrPeer
  pub peer_pool : List ℕ
  pub pool_count : ℕ
  pub peers : List ℕ
  pub peers_count : ℕ
  pub bitfield_slab : List ℕ
  pub bytes_count : ℕ
  pub piece_buf_slab : List ℕ
  pub piece_length : ℕ

-- the structure that a pointer points at
abbrev pub peer_at : TrSwarm → ℕ → Outcome TrPeer
peer_at swarm address = of_option (get_elem? swarm.store address)

abbrev pub put_peer : TrSwarm → ℕ → TrPeer → TrSwarm
put_peer swarm address peer = record swarm { store = set swarm.store address peer }
