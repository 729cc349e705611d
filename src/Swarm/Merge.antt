-- ===== src/Swarm/Merge.antt =====
-- `parse_peers` of announcer/announcer.c against lists of addresses: what a tracker sends is merged
-- into the addresses that are known.
use bite_bit_bitten.Common.{
  ℕ, zero, suc, ◌+◌, ◌*◌, ◌/◌, ◌^◌, ◌≤◌, ◌<◌, ◌≡◌, refl, sym, ap, ◌∙◌, subst, inl, inr, some, List,
  [], ◌∷◌, ◌++◌, arith, ltb, leb, ◌==◌, if◌then◌else◌, ltb→lt, le→leb, lt→leb, Bool-cases,
  Option-cases, length, get_elem?, set, take, drop, All, length-set, length-take,
  get_elem?-set_self, slice, le_word, in_range, take_next, All-get_elem?, All-take,
}
use bite_bit_bitten.Common.Outcome.{ok}
use bite_bit_bitten.Swarm.{TrPeer, TrSwarm, not_connected}
use bite_bit_bitten.Swarm.Pool.{peer_pool_add, parse_entries, parse_peers}
use bite_bit_bitten.Swarm.Known.{
  addresses, pool_addresses, WellFormed, has_address, add_address, add_addresses, compact,
  known_lem, addresses-set, addresses-append, length-addresses, Distinct-take,
}
use bite_bit_bitten.Peer.Message.{word_from}

-- A structure that takes a new address is the next of the pool.
added-addresses :
    (swarm : TrSwarm) (p : ℕ) (peer : TrPeer)
    → WellFormed swarm
    → get_elem? swarm.peer_pool swarm.pool_count ≡ some p
    → addresses (set swarm.store p peer) (take (swarm.pool_count + 1) swarm.peer_pool)
      ≡ pool_addresses swarm ++ (peer.ip, peer.port) ∷ []
added-addresses swarm p peer h next =
    let room =
      All-get_elem? (λ q. q < length swarm.store) swarm.peer_pool swarm.pool_count p h.2 next in
    let before = take swarm.pool_count swarm.peer_pool in
    rw
      (
        take_next swarm.peer_pool swarm.pool_count p next,
        addresses-append (set swarm.store p peer) before (p ∷ []),
        addresses-set swarm.store before p peer
            (Distinct-take swarm.peer_pool swarm.pool_count p h.3 next),
        get_elem?-set_self swarm.store p peer room,
      )
      refl

peer_pool_add_lem :
    (swarm : TrSwarm) (ip port : ℕ)
    → WellFormed swarm
    → swarm.pool_count < 200
    → (after : TrSwarm) × (peer_pool_add swarm ip port ≡ ok after)
      × (pool_addresses after ≡ (
          if has_address ip port (pool_addresses swarm)
          then pool_addresses swarm
          else pool_addresses swarm ++ (ip, port) ∷ []))
      × WellFormed after
unfolding peer_pool_add
peer_pool_add_lem swarm ip port h room =
    let before = take swarm.pool_count swarm.peer_pool in
    let valid = All-take (λ q. q < length swarm.store) swarm.pool_count swarm.peer_pool h.2 in
    let seen = known_lem swarm.store before ip port valid in
    elim (Bool-cases (has_address ip port (pool_addresses swarm))) [
      | inl old ↦ (swarm, rw (seen, old) refl, rw old refl, h)
      | inr new ↦ elim (Option-cases (get_elem? swarm.peer_pool swarm.pool_count)) [
        | inl missing ↦
            absurd (in_range swarm.peer_pool swarm.pool_count (omega (arith, h.0)) missing)
        | inr (p, next) ↦
            let inside =
              All-get_elem? (λ q. q < length swarm.store) swarm.peer_pool swarm.pool_count p h.2
                next in
            elim (Option-cases (get_elem? swarm.store p)) [
              | inl missing ↦ absurd (in_range swarm.store p inside missing)
              | inr (peer, found) ↦
                  let named = record peer { ip = ip; port = port; peer_state = not_connected } in
                  (
                    record swarm {
                      store = set swarm.store p named;
                      pool_count = swarm.pool_count + 1;
                    },
                    rw (seen, new, next, found) refl,
                    rw new (added-addresses swarm p named h next),
                    (
                      h.0,
                      omega arith,
                      subst (λ n. All (λ q. q < n) swarm.peer_pool)
                          (sym (length-set swarm.store p named)) h.2,
                      h.3,
                    ),
                  )
            ]
      ]
    ]

length-pool_addresses :
    (swarm : TrSwarm) → WellFormed swarm → length (pool_addresses swarm) ≡ swarm.pool_count
length-pool_addresses swarm h = omega (
  arith,
  length-addresses swarm.store (take swarm.pool_count swarm.peer_pool),
  length-take swarm.pool_count swarm.peer_pool,
  h.0,
  h.1,
)

entry_lem :
    (swarm : TrSwarm) (ip port : ℕ)
    → WellFormed swarm
    → (after : TrSwarm) × ((if leb 200 swarm.pool_count
          then ok swarm
          else if port == 0
          then ok swarm
          else peer_pool_add swarm ip port)
        ≡ ok after)
      × (pool_addresses after ≡ add_address (pool_addresses swarm) (ip, port))
      × WellFormed after
entry_lem swarm ip port h =
    let size = length-pool_addresses swarm h in
    elim (Bool-cases (leb 200 swarm.pool_count)) [
      | inl full ↦ (swarm, rw full refl, rw (size, full) refl, h)
      | inr room ↦ elim (Bool-cases (port == 0)) [
        | inl no_port ↦ (swarm, rw (room, no_port) refl, rw (size, room, no_port) refl, h)
        | inr has_port ↦
            let below : swarm.pool_count < 200 = ground (arith, room) in
            let added = peer_pool_add_lem swarm ip port h below in
            (added.0, rw (room, has_port) added.1, rw (size, room, has_port) added.2, added.3)
      ]
    ]

parse_entries_lem :
    (n : ℕ) (bytes : List ℕ) (swarm : TrSwarm)
    → WellFormed swarm
    → (after : TrSwarm) × (parse_entries n bytes swarm ≡ ok after)
      × (pool_addresses after ≡ add_addresses (pool_addresses swarm) (compact n bytes))
      × WellFormed after
unfolding parse_entries
parse_entries_lem zero bytes swarm h = (swarm, refl, refl, h)
parse_entries_lem (suc n) bytes swarm h =
    let one = entry_lem swarm (le_word (take 4 bytes)) (word_from 0 (slice bytes 4 2)) h in
    let rest = parse_entries_lem n (drop 6 bytes) one.0 one.3 in
    (
      rest.0,
      rw one.1 rest.1,
      rest.2 ∙ ap (λ known. add_addresses known (compact n (drop 6 bytes))) one.2,
      rest.3,
    )

-- On a well-formed swarm and a buffer that holds the `peers_length` bytes, of less than 2 GiB,
-- `parse_peers` ends without a fault: the addresses of the pool are then those of before, followed by
-- each one of the list that has a port, was not there yet and finds fewer than 200 others, in order;
-- the swarm is well-formed again. Bytes after the last six are passed over.
pub parse_peers_lem :
    (bytes : List ℕ) (peers_length : ℕ) (swarm : TrSwarm)
    → WellFormed swarm
    → peers_length ≤ length bytes
    → peers_length < 2 ^ 31
    → (after : TrSwarm) × (parse_peers bytes peers_length swarm ≡ ok after)
      × (pool_addresses after
          ≡ add_addresses (pool_addresses swarm) (compact (peers_length / 6) bytes))
      × WellFormed after
unfolding parse_peers
parse_peers_lem bytes peers_length swarm h held small =
    let positive = lt→leb (2 ^ 31) peers_length small in
    let all = le→leb (peers_length / 6 * 6) (length bytes) (omega arith) in
    elim (Bool-cases (ltb peers_length 6)) [
      | inl short ↦
          let none_there : peers_length / 6 ≡ 0 = omega (arith, ltb→lt peers_length 6 short) in
          (swarm, rw (positive, short) refl, rw none_there refl, h)
      | inr enough ↦
          let entries = parse_entries_lem (peers_length / 6) bytes swarm h in
          (entries.0, rw (positive, enough, all) entries.1, entries.2, entries.3)
    ]
