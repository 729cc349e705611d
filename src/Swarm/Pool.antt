-- ===== src/Swarm/Pool.antt =====
-- The pool of addresses: `parse_peers`, `peer_pool_add`, `pick_peer`, `connect_to_peer` and
-- `ANN_refill_peers` of announcer/announcer.c. `now` is `time(NULL)`.
use bite_bit_bitten.Common.{
  ℕ, zero, suc, ◌+◌, ◌-◌, ◌*◌, ◌/◌, ◌^◌, Bool, true, false, ◌&&◌, ◌||◌, not, Option, none, some,
  List, [], ◌∷◌, ltb, leb, ◌==◌, if◌then◌else◌, length, get_elem?, get_or, set, take, drop, slice,
  ℤ, le_word,
}
use bite_bit_bitten.Common.Outcome.{of_option, Outcome, ok, fault, out_of_fuel, ◌>>=◌}
use bite_bit_bitten.Swarm.{
  PeerState, not_connected, connecting, connected, handshaking, banned, TrPeer, TrSwarm, peer_at,
  put_peer,
}
use bite_bit_bitten.Peer.Message.{word_from}

-- whether a pointer of the pool leads to this address
abbrev pub known : List TrPeer → List ℕ → ℕ → ℕ → Outcome Bool
known store [] ip port = ok false
known store (address ∷ pool) ip port = do
  peer ← of_option (get_elem? store address)
  let more = known store pool ip port
  if peer.ip == ip && peer.port == port then ok true else more

unfoldable pub peer_pool_add : TrSwarm → ℕ → ℕ → Outcome TrSwarm
peer_pool_add swarm ip port = do
  seen ← known swarm.store (take swarm.pool_count swarm.peer_pool) ip port
  let add = do
    address ← of_option (get_elem? swarm.peer_pool swarm.pool_count)
    peer ← peer_at swarm address
    let named = record peer { ip = ip; port = port; peer_state = not_connected }
    ok (record (put_peer swarm address named) { pool_count = swarm.pool_count + 1 })
  if seen then ok swarm else add

-- The loop with `n` entries of six bytes left; an address stays in the order of the network.
unfoldable pub parse_entries : ℕ → List ℕ → TrSwarm → Outcome TrSwarm
unfolding peer_pool_add
parse_entries zero bytes swarm = ok swarm
parse_entries (suc n) bytes swarm =
    let ip = le_word (take 4 bytes) in
    let port = word_from 0 (slice bytes 4 2) in
    let add = peer_pool_add swarm ip port in
    (if leb 200 swarm.pool_count then ok swarm else if port == 0 then ok swarm else add)
    >>= parse_entries n (drop 6 bytes)

-- `peers_length` is an `int`: 2 ^ 31 and more stand for what is below 0.
unfoldable pub parse_peers : List ℕ → ℕ → TrSwarm → Outcome TrSwarm
unfolding parse_entries
parse_peers bytes peers_length swarm =
    if leb (2 ^ 31) peers_length || ltb peers_length 6
    then ok swarm
    else if leb (peers_length / 6 * 6) (length bytes)
    then parse_entries (peers_length / 6) bytes swarm
    else fault

abbrev pub is_busy : PeerState → Bool
is_busy connected = true
is_busy connecting = true
is_busy not_connected = false
is_busy handshaking = false
is_busy banned = false

-- what the loop of `pick_peer` does with a peer
abbrev pub passed_over : ℕ → TrPeer → Bool
passed_over now peer = is_busy peer.peer_state || ltb now (peer.last_tried + 300)

-- The last pointer of the pool takes the place of one that is given up.
abbrev pub give_up : TrSwarm → ℕ → TrSwarm
give_up swarm i = record swarm {
  peer_pool = set swarm.peer_pool i (get_or swarm.peer_pool (swarm.pool_count - 1) 0);
  pool_count = swarm.pool_count - 1;
}

-- The loop at `i`.
unfoldable pub pick_from : ℕ → ℕ → ℕ → TrSwarm → Outcome (Option ℕ × TrSwarm)
pick_from now zero i swarm = if ltb i swarm.pool_count then out_of_fuel else ok (none, swarm)
pick_from now (suc fuel) i swarm =
    let next = pick_from now fuel (i + 1) swarm in
    let again = pick_from now fuel i (give_up swarm i) in
    if not (ltb i swarm.pool_count)
    then ok (none, swarm)
    else of_option (get_elem? swarm.peer_pool i) >>= λ address. peer_at swarm address >>= λ peer.
        if passed_over now peer
        then next
        else if leb 3 peer.failed_tries
        then again
        else ok (some address, swarm)

unfoldable pub pick_peer : ℕ → TrSwarm → Outcome (Option ℕ × TrSwarm)
unfolding pick_from
pick_peer now swarm = pick_from now swarm.pool_count 0 swarm

-- `connect` is the system's: the socket, and whether the connection is under way.
module _ (connect : TrPeer → ℤ × Bool) where
  abbrev pub connect_to_peer : ℕ → TrPeer → TrPeer
  connect_to_peer now peer =
      let opened = record peer { sock = (connect peer).0 } in
      if (connect peer).1
      then record opened { peer_state = connecting }
      else record opened { last_tried = now }

  -- The loop. A peer that was tried is passed over, so a round for each structure is enough, and one
  -- more.
  unfoldable pub refill_from : ℕ → ℕ → TrSwarm → Outcome TrSwarm
  unfolding pick_peer
  refill_from zero now swarm =
      if ltb swarm.peers_count 50 && ltb 0 swarm.pool_count then out_of_fuel else ok swarm
  refill_from (suc fuel) now swarm =
      let round = pick_peer now swarm >>= λ r. elim r.0 [
        | none ↦ ok r.1
        | some address ↦ peer_at r.1 address >>= λ peer.
            refill_from fuel now (put_peer r.1 address (connect_to_peer now peer))
      ] in
      if ltb swarm.peers_count 50 && ltb 0 swarm.pool_count then round else ok swarm

  unfoldable pub ann_refill_peers : ℕ → TrSwarm → Outcome TrSwarm
  unfolding refill_from
  ann_refill_peers now swarm = refill_from (length swarm.store + 1) now swarm
