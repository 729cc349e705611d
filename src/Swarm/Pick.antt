-- ===== src/Swarm/Pick.antt =====
-- `pick_peer` and `ANN_refill_peers` of announcer/announcer.c: whom they choose, and that they end.
use bite_bit_bitten.Common.{
  ℕ, ◌≤◌, ◌<◌, ◌≡◌, true, false, Option, none, some, length, get_elem?, All,
}
use bite_bit_bitten.Common.Outcome.{ok}
use bite_bit_bitten.Swarm.{TrPeer, TrSwarm}
use bite_bit_bitten.Swarm.Pool.{passed_over, pick_from}

-- The pointers of the pool lead to structures.
abbrev pub InRange : TrSwarm → Type 0
InRange swarm =
    (swarm.pool_count ≤ length swarm.peer_pool) × All (λ p. p < length swarm.store) swarm.peer_pool

-- The peer at a place of the pool is passed over.
abbrev pub PassedAt : ℕ → TrSwarm → ℕ → Type 0
PassedAt now swarm j =
    (address : ℕ) × (peer : TrPeer) × (get_elem? swarm.peer_pool j ≡ some address)
    × (get_elem? swarm.store address ≡ some peer)
    × (passed_over now peer ≡ true)

-- what `pick_peer` promises of the peer that it gives, or of all of them when it gives none
abbrev pub Picked : ℕ → ℕ → TrSwarm → Option ℕ → Type 0
Picked now i after none = (j : ℕ) → i ≤ j → j < after.pool_count → PassedAt now after j
Picked now i after (some address) =
    (peer : TrPeer) × (get_elem? after.store address ≡ some peer)
    × (passed_over now peer ≡ false)
    × (peer.failed_tries < 3)

-- what the loop comes to from `i` on
abbrev PicksFrom : ℕ → ℕ → ℕ → TrSwarm → Type 0
PicksFrom now fuel i swarm =
    (o : Option ℕ) × (after : TrSwarm) × (pick_from now fuel i swarm ≡ ok (o, after))
    × (after.store ≡ swarm.store)
    × (after.peers_count ≡ swarm.peers_count)
    × InRange after
    × ((j : ℕ) → j < i → get_elem? after.peer_pool j ≡ get_elem? swarm.peer_pool j)
    × Picked now i after o
