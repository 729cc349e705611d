-- ===== src/Swarm/Tests.antt =====
-- Runs of the swarm: two hundred structures, three addresses from a tracker, two connections.
use bite_bit_bitten.Common.{
  ℕ, zero, suc, ◌+◌, ◌/◌, ◌≤◌, ◌<◌, ◌≡◌, refl, ◌≢◌, Bool, List, [], ◌∷◌, ◌++◌, arith, ◌==◌,
  replicate, All, ℤ, pos, negsuc,
}
use bite_bit_bitten.Common.Outcome.{ok, ◌>>=◌}
use bite_bit_bitten.Swarm.{not_connected, connected, TrPeer, TrSwarm, put_peer}
use bite_bit_bitten.Swarm.Pool.{parse_peers, parse_entries, peer_pool_add}
use bite_bit_bitten.Swarm.Known.{pool_addresses, WellFormed, Distinct, add_addresses, compact}
use bite_bit_bitten.Swarm.Merge.{parse_peers_lem}
use bite_bit_bitten.Swarm.Proper.{Proper, parse_peers-Proper}
use bite_bit_bitten.Swarm.Handshake.{handle_handshake, send_handshake}
use bite_bit_bitten.Swarm.Connections.{handle_handshake-send_handshake}

abbrev fresh : TrPeer
fresh = record {
  ip = 0;
  port = 0;
  sock = negsuc 0;
  peer_state = not_connected;
  bitfield = 0;
  piece_buf = 0;
  last_tried = 0;
  failed_tries = 0;
  current_piece = negsuc 0;
  blocks_received = 0;
  sent = [];
}

abbrev count_from : ℕ → ℕ → List ℕ
count_from i zero = []
count_from i (suc n) = i ∷ count_from (i + 1) n

count_from-ge : (i n k : ℕ) → k < i → All (λ q. q ≢ k) (count_from i n)
count_from-ge i zero k h = tt
count_from-ge i (suc n) k h = (λ e. omega arith, count_from-ge (i + 1) n k (omega arith))

count_from-Distinct : (i n : ℕ) → Distinct (count_from i n)
count_from-Distinct i zero = tt
count_from-Distinct i (suc n) =
    (count_from-ge (i + 1) n i (omega arith), count_from-Distinct (i + 1) n)

count_from-lt : (i n bound : ℕ) → i + n ≤ bound → All (λ q. q < bound) (count_from i n)
count_from-lt i zero bound h = tt
count_from-lt i (suc n) bound h = (omega arith, count_from-lt (i + 1) n bound (omega arith))

-- `init_TR_swarm` for pieces whose marks take one byte, of four bytes each
abbrev swarm : TrSwarm
swarm = record {
  store = replicate 200 fresh;
  peer_pool = count_from 0 200;
  pool_count = 0;
  peers = replicate 50 0;
  peers_count = 0;
  bitfield_slab = replicate 50 0;
  bytes_count = 1;
  piece_buf_slab = replicate 200 0;
  piece_length = 4;
}

swarm-WellFormed : WellFormed swarm
swarm-WellFormed =
    (refl, omega arith, count_from-lt 0 200 200 (omega arith), count_from-Distinct 0 200)

-- three addresses, one of them twice, one without a port, and a byte that is left over
abbrev compact_peers : List ℕ
compact_peers =
    10 ∷ 0 ∷ 0 ∷ 1 ∷ 26 ∷ 225 ∷ 10 ∷ 0 ∷ 0 ∷ 2 ∷ 26 ∷ 226 ∷ 10 ∷ 0 ∷ 0 ∷ 1 ∷ 26 ∷ 225 ∷ 10 ∷ 0 ∷ 0
    ∷ 3 ∷ 0 ∷ 0 ∷ 7 ∷ []

parse_peers_lem_example :
    (after : TrSwarm) × (parse_peers compact_peers 25 swarm ≡ ok after)
    × (pool_addresses after ≡ add_addresses (pool_addresses swarm) (compact (25 / 6) compact_peers))
    × WellFormed after
parse_peers_lem_example =
    parse_peers_lem compact_peers 25 swarm swarm-WellFormed (omega arith) (omega arith)

merged : add_addresses [] (compact 4 compact_peers) ≡ (16777226, 6881) ∷ (33554442, 6882) ∷ []
merged = refl

abbrev named : ℕ → ℕ → TrPeer
named ip port = record fresh { ip = ip; port = port }

-- the swarm with the two addresses
abbrev two_known : TrSwarm
two_known = record swarm {
  store = named 16777226 6881 ∷ named 33554442 6882 ∷ replicate 198 fresh;
  pool_count = 2;
}

two_known-parse_peers : parse_peers compact_peers 25 swarm ≡ ok two_known
unfolding parse_peers parse_entries peer_pool_add
two_known-parse_peers = refl

parse_peers-Proper_example : WellFormed two_known × Proper (pool_addresses two_known)
parse_peers-Proper_example =
    parse_peers-Proper compact_peers 25 swarm two_known swarm-WellFormed tt (omega arith)
      (omega arith) two_known-parse_peers

-- Connections to one of the addresses get under way, the others are refused.
abbrev connect : TrPeer → ℤ × Bool
connect peer = (pos 5, peer.port == 6881)

-- the first of the two has failed three times
abbrev one_failing : TrSwarm
one_failing = record two_known {
  store =
      record (named 16777226 6881) { failed_tries = 3 } ∷ named 33554442 6882 ∷ replicate 198 fresh;
}

abbrev our_hash : List ℕ
our_hash = replicate 20 7

abbrev our_id : List ℕ
our_id = replicate 20 b'x'

handle_handshake-send_handshake_example :
    handle_handshake 1000 0 our_hash two_known
      ((send_handshake fresh our_hash our_id).sent ++ 0 ∷ 0 ∷ [])
    ≡ (ok (put_peer two_known 0 (record (named 16777226 6881) { peer_state = connected })) >>= λ s.
        ok (s, 0 ∷ 0 ∷ []))
handle_handshake-send_handshake_example =
    handle_handshake-send_handshake 1000 0 fresh (named 16777226 6881) two_known our_hash our_hash
      our_id (0 ∷ 0 ∷ []) refl refl refl refl

-- both are connected
abbrev both_connected : TrSwarm
both_connected = record two_known {
  store =
      record (named 16777226 6881) { peer_state = connected; bitfield = 0; piece_buf = 0 }
      ∷ record (named 33554442 6882) { peer_state = connected; bitfield = 1; piece_buf = 4 }
      ∷ replicate 198 fresh;
  peers = 0 ∷ 1 ∷ replicate 48 0;
  peers_count = 2;
}
