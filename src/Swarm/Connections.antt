-- ===== src/Swarm/Connections.antt =====
-- The handshake of one side is what the other takes in, and what a connection that ends does to the
-- others.
use bite_bit_bitten.Common.{
  ℕ, ◌≡◌, ap, ap₂, ◌∙◌, subst, true, ◌&&◌, some, List, [], ◌++◌, arith, ◌==◌, if◌then◌else◌, ==_iff,
  length, get_elem?, take, drop, length-append, length-take, drop-append, take-append, slice,
  same_list, take_all,
}
use bite_bit_bitten.Common.Outcome.{of_option, ok, ◌>>=◌}
use bite_bit_bitten.Swarm.{connected, TrPeer, TrSwarm, peer_at, put_peer}
use bite_bit_bitten.Swarm.Handshake.{
  handshake_message, send_handshake, disconnect_peer, is_handshake, greet, handle_handshake,
}

length-handshake_message :
    (info_hash peer_id : List ℕ)
    → length info_hash ≡ 20
    → length peer_id ≡ 20
    → length (handshake_message info_hash peer_id) ≡ 68
length-handshake_message info_hash peer_id hash id = omega (
  arith,
  length-append (take 20 info_hash) (take 20 peer_id),
  length-take 20 info_hash,
  length-take 20 peer_id,
)

-- the twenty bytes of the hash in a handshake
handshake_hash :
    (info_hash peer_id : List ℕ)
    → length info_hash ≡ 20
    → slice (handshake_message info_hash peer_id) 28 20 ≡ info_hash
handshake_hash info_hash peer_id hash =
    let whole : take 20 info_hash ≡ info_hash = take_all 20 info_hash (omega arith) in
    rw whole (
      subst (λ n. take n (info_hash ++ take 20 peer_id) ≡ info_hash) hash
        (take-append info_hash (take 20 peer_id)))

is_handshake-message :
    (info_hash other_hash peer_id : List ℕ)
    → length info_hash ≡ 20
    → length peer_id ≡ 20
    → is_handshake (handshake_message info_hash peer_id) other_hash ≡ same_list info_hash other_hash
is_handshake-message info_hash other_hash peer_id hash id =
    let message = handshake_message info_hash peer_id in
    let right_size : (length message == 68) ≡ true =
      (==_iff (length message) 68).1 (length-handshake_message info_hash peer_id hash id) in
    ap₂ (λ a b. a && (true && true) && same_list b other_hash) right_size
      (handshake_hash info_hash peer_id hash)

-- A handshake that one side sends on a connection with nothing else to read is taken in by the other
-- whole: the peer is connected when both have the info hash, and otherwise it is disconnected. Hash
-- and identifier have twenty bytes.
pub handle_handshake-send_handshake :
    (now address : ℕ) (sender peer : TrPeer) (swarm : TrSwarm)
    (info_hash other_hash peer_id rest : List ℕ)
    → length info_hash ≡ 20
    → length peer_id ≡ 20
    → sender.sent ≡ []
    → get_elem? swarm.store address ≡ some peer
    → handle_handshake now address other_hash swarm
        ((send_handshake sender info_hash peer_id).sent ++ rest)
      ≡ ((if same_list info_hash other_hash
            then ok (put_peer swarm address (record peer { peer_state = connected }))
            else disconnect_peer now address swarm)
          >>= λ s. ok (s, rest))
unfolding handle_handshake greet send_handshake
handle_handshake-send_handshake now address sender peer swarm info_hash other_hash peer_id rest hash
      id fresh found =
    let message = handshake_message info_hash peer_id in
    let size = length-handshake_message info_hash peer_id hash id in
    let first : take 68 (message ++ rest) ≡ message =
      subst (λ n. take n (message ++ rest) ≡ message) size (take-append message rest) in
    let behind : drop 68 (message ++ rest) ≡ rest =
      subst (λ n. drop n (message ++ rest) ≡ rest) size (drop-append message rest) in
    let tested = is_handshake-message info_hash other_hash peer_id hash id in
    let stay = peer_at swarm address >>= λ p.
    ok (put_peer swarm address (record p { peer_state = connected })) in
    let leave = disconnect_peer now address swarm in
    let stays : stay ≡ ok (put_peer swarm address (record peer { peer_state = connected })) =
      ap
        (λ o.
          of_option o >>= λ p. ok (put_peer swarm address (record p { peer_state = connected })))
        found in
    ap (λ sent. handle_handshake now address other_hash swarm ((sent ++ message) ++ rest)) fresh
    ∙ ap₂ (λ h r. (if is_handshake h other_hash then stay else leave) >>= λ s. ok (s, r)) first
        behind
    ∙ ap₂ (λ b x. (if b then x else leave) >>= λ s. ok (s, rest)) tested stays
