-- ===== src/Swarm/Refill.antt =====
-- `ANN_refill_peers` of announcer/announcer.c: it tries everyone there is to try, and ends; and what
-- becomes of the pool when a peer is given up.
use bite_bit_bitten.Common.{
  ℕ, zero, suc, ◌-◌, ◌≤◌, ◌<◌, ◌≡◌, refl, sym, ◌∙◌, subst, ◌⊎◌, Bool, true, false, some, List, [],
  ◌∷◌, arith, ltb, leb, if◌then◌else◌, lt→ltb, get_elem?, get_or, set, get_elem?-set_self,
  get_elem?-set_ne, ℤ,
}
use bite_bit_bitten.Common.Outcome.{ok}
use bite_bit_bitten.Swarm.{TrPeer, TrSwarm}
use bite_bit_bitten.Swarm.Pool.{passed_over, pick_from, pick_peer, refill_from}
use bite_bit_bitten.Swarm.Known.{WellFormed}
use bite_bit_bitten.Swarm.Pick.{InRange, PassedAt}

-- how many structures are not passed over
abbrev waiting : ℕ → List TrPeer → ℕ
waiting now [] = 0
waiting now (peer ∷ store) =
    if passed_over now peer then waiting now store else suc (waiting now store)

get_or-get_elem? : (xs : List ℕ) (i x : ℕ) → get_elem? xs i ≡ some x → get_or xs i 0 ≡ x
get_or-get_elem? [] i x h = cc
get_or-get_elem? (y ∷ xs) zero x h = cc
get_or-get_elem? (y ∷ xs) (suc i) x h = get_or-get_elem? xs i x h

-- fifty connections, or no one left in the pool to try
abbrev pub Filled : ℕ → TrSwarm → Type 0
Filled now swarm =
    (50 ≤ swarm.peers_count) ⊎ ((j : ℕ) → j < swarm.pool_count → PassedAt now swarm j)

module _ (connect : TrPeer → ℤ × Bool) (now : ℕ) where
  -- what the loop comes to
  abbrev Refills : ℕ → TrSwarm → Type 0
  Refills fuel swarm =
      (after : TrSwarm) × (refill_from connect fuel now swarm ≡ ok after)
      × InRange after
      × Filled now after

-- A peer that is given up leaves its place to the last pointer of the pool, which is not taken from
-- where it stood: when the first peer of two or more has failed three times and is not passed over,
-- and the last one is to be tried, `pick_peer` gives the last one, and the pointer to it is then both
-- the first of the pool and the one that the next new address is written to.
pub pick_peer-overwritten :
    (now : ℕ) (swarm : TrSwarm) (first last : TrPeer) (p q : ℕ)
    → WellFormed swarm
    → 2 ≤ swarm.pool_count
    → get_elem? swarm.peer_pool 0 ≡ some p
    → get_elem? swarm.peer_pool (swarm.pool_count - 1) ≡ some q
    → get_elem? swarm.store p ≡ some first
    → get_elem? swarm.store q ≡ some last
    → passed_over now first ≡ false
    → leb 3 first.failed_tries ≡ true
    → passed_over now last ≡ false
    → leb 3 last.failed_tries ≡ false
    → (picked : TrSwarm) × (pick_peer now swarm ≡ ok (some q, picked))
      × (picked.pool_count ≡ swarm.pool_count - 1)
      × (get_elem? picked.peer_pool 0 ≡ some q)
      × (get_elem? picked.peer_pool picked.pool_count ≡ some q)
unfolding pick_peer pick_from
pick_peer-overwritten now swarm first last p q h two at_0 at_end at_p at_q free failing free' good =
    let count = swarm.pool_count in
    let fuel : count ≡ suc (suc (count - 2)) = omega arith in
    let more : ltb 0 count ≡ true = lt→ltb 0 count (omega arith) in
    let more' : ltb 0 (count - 1) ≡ true = lt→ltb 0 (count - 1) (omega arith) in
    let moved : get_or swarm.peer_pool (count - 1) 0 ≡ q =
      get_or-get_elem? swarm.peer_pool (count - 1) q at_end in
    let first_place : get_elem? (set swarm.peer_pool 0 q) 0 ≡ some q =
      get_elem?-set_self swarm.peer_pool 0 q (omega (arith, h.0)) in
    (
      record swarm { peer_pool = set swarm.peer_pool 0 q; pool_count = count - 1 },
      subst
          (λ n.
            pick_from now n 0 swarm
            ≡ ok (
              some q,
              record swarm { peer_pool = set swarm.peer_pool 0 q; pool_count = count - 1 },
            ))
          (sym fuel)
          (rw (more, at_0, at_p, free, failing, more', moved, first_place, at_q, free', good) refl),
      refl,
      first_place,
      get_elem?-set_ne swarm.peer_pool 0 (count - 1) q (λ e. omega arith) ∙ at_end,
    )
