-- ===== src/Swarm/Handshake.antt =====
-- The life of a connection: `on_peer_connected`, `send_handshake`, `handle_handshake` and
-- `disconnect_peer` of announcer/announcer.c. What epoll and the sockets do is left out.
use bite_bit_bitten.Common.{
  ℕ, ◌+◌, ◌-◌, ◌*◌, Bool, ◌&&◌, not, Option, none, some, List, [], ◌∷◌, ◌++◌, ltb, ◌==◌,
  if◌then◌else◌, length, get_or, set, take, replicate, slice, u32, negsuc, same_list,
}
use bite_bit_bitten.Common.Outcome.{Outcome, ok, fault, ◌>>=◌}
use bite_bit_bitten.Swarm.{
  not_connected, connected, handshaking, TrPeer, TrSwarm, peer_at, put_peer,
}
use bite_bit_bitten.Peer.Message.{recv, overwrite}

-- "BitTorrent protocol"
abbrev pub protocol : List ℕ
protocol =
    b'B' ∷ b'i' ∷ b't' ∷ b'T' ∷ b'o' ∷ b'r' ∷ b'r' ∷ b'e' ∷ b'n' ∷ b't' ∷ b' ' ∷ b'p' ∷ b'r' ∷ b'o'
    ∷ b't' ∷ b'o' ∷ b'c' ∷ b'o' ∷ b'l' ∷ []

-- The hash and the identifier are arrays of twenty bytes.
abbrev pub handshake_message : List ℕ → List ℕ → List ℕ
handshake_message info_hash peer_id =
    19 ∷ (protocol ++ (replicate 8 0 ++ (take 20 info_hash ++ take 20 peer_id)))

unfoldable pub send_handshake : TrPeer → List ℕ → List ℕ → TrPeer
send_handshake peer info_hash peer_id = record peer {
  sent = peer.sent ++ handshake_message info_hash peer_id;
}

-- the place of a pointer in `peers`, looked for from `i` on
abbrev pub find_peer : ℕ → ℕ → List ℕ → Option ℕ
find_peer i address [] = none
find_peer i address (p ∷ peers) =
    let rest = find_peer (i + 1) address peers in if p == address then some i else rest

-- The last pointer takes the place of the one that goes.
unfoldable pub remove_peer : ℕ → TrSwarm → TrSwarm
remove_peer address swarm = elim (find_peer 0 address (take swarm.peers_count swarm.peers)) [
  | none ↦ swarm
  | some i ↦ record swarm {
    peers = set swarm.peers i (get_or swarm.peers (swarm.peers_count - 1) 0);
    peers_count = swarm.peers_count - 1;
  }
]

abbrev pub dropped : ℕ → TrPeer → TrPeer
dropped now peer = record peer {
  sock = negsuc 0;
  current_piece = negsuc 0;
  blocks_received = 0;
  peer_state = not_connected;
  failed_tries = peer.failed_tries + 1;
  last_tried = now;
}

unfoldable pub disconnect_peer : ℕ → ℕ → TrSwarm → Outcome TrSwarm
unfolding remove_peer
disconnect_peer now address swarm = do
  peer ← peer_at swarm address
  bits ← overwrite swarm.bitfield_slab peer.bitfield (replicate swarm.bytes_count 0)
  bytes ← overwrite swarm.piece_buf_slab peer.piece_buf (replicate swarm.piece_length 0)
  let wiped = record swarm { bitfield_slab = bits; piece_buf_slab = bytes }
  ok (remove_peer address (put_peer wiped address (dropped now peer)))

-- the three tests of a handshake
abbrev pub is_handshake : List ℕ → List ℕ → Bool
is_handshake handshake info_hash =
    length handshake == 68
    && (get_or handshake 0 0 == 19 && same_list (slice handshake 1 19) protocol)
    && same_list (slice handshake 28 20) info_hash

-- what becomes of the peer after the bytes of its handshake
unfoldable pub greet : ℕ → ℕ → List ℕ → TrSwarm → List ℕ → Outcome TrSwarm
unfolding disconnect_peer
greet now address info_hash swarm handshake =
    let leave = disconnect_peer now address swarm in
    let stay = peer_at swarm address >>= λ peer.
    ok (put_peer swarm address (record peer { peer_state = connected })) in
    if is_handshake handshake info_hash then stay else leave

-- What the socket yields at once is `input`; the rest of it stays.
unfoldable pub handle_handshake : ℕ → ℕ → List ℕ → TrSwarm → List ℕ → Outcome (TrSwarm × List ℕ)
unfolding greet
handle_handshake now address info_hash swarm input =
    greet now address info_hash swarm (recv 68 input).0 >>= λ s. ok (s, (recv 68 input).1)

-- `error` is what `getsockopt` says of the connection.
unfoldable pub on_peer_connected : ℕ → ℕ → ℕ → ℕ → List ℕ → List ℕ → TrSwarm → Outcome TrSwarm
unfolding send_handshake
on_peer_connected now error address piece_length info_hash peer_id swarm =
    peer_at swarm address >>= λ peer.
    let refused = record peer {
      peer_state = not_connected;
      failed_tries = peer.failed_tries + 1;
      last_tried = now;
      sock = negsuc 0;
    } in
    let idx = swarm.peers_count in
    let placed = record peer {
      bitfield = swarm.bytes_count * idx;
      piece_buf = u32 (piece_length * idx);
      peer_state = handshaking;
    } in
    let joined = record swarm { peers = set swarm.peers idx address; peers_count = idx + 1 } in
    if not (error == 0)
    then ok (put_peer swarm address refused)
    else if ltb idx (length swarm.peers)
    then ok (put_peer joined address (send_handshake placed info_hash peer_id))
    else fault
