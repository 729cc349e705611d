-- ===== src/Swarm/Slots.antt =====
-- `disconnect_peer` and `on_peer_connected` of announcer/announcer.c on the array of the connected
-- peers and on their slots in the slabs.
use bite_bit_bitten.Common.{
  ℕ, ◌+◌, ◌-◌, ◌*◌, ◌≤◌, ◌<◌, ◌≡◌, refl, sym, ap, ◌∙◌, ◌≢◌, some, List, ◌++◌, arith, ltb→lt, lt→ltb,
  le→leb, length, get_elem?, get_or, set, take, drop, replicate, length-set, length-replicate,
  get_elem?-set_self, get_elem?-set_ne, u32, present,
}
use bite_bit_bitten.Common.Outcome.{ok}
use bite_bit_bitten.Swarm.{handshaking, TrPeer, TrSwarm, put_peer}
use bite_bit_bitten.Swarm.Known.{Distinct}
use bite_bit_bitten.Peer.Message.{overwrite}
use bite_bit_bitten.Swarm.Handshake.{send_handshake, dropped, disconnect_peer, on_peer_connected}
use bite_bit_bitten.Swarm.Links.{IsLinked, remove_peer_lem, one_place, last_there, moved_there}

overwrite-zeros :
    (buf : List ℕ) (offset n : ℕ)
    → offset + n ≤ length buf
    → (out : List ℕ) × (overwrite buf offset (replicate n 0) ≡ ok out)
overwrite-zeros buf offset n room =
    let zeros : List ℕ = replicate n 0 in
    let size : length zeros ≡ n = length-replicate n 0 in
    (
      take offset buf ++ (zeros ++ drop (offset + length zeros) buf),
      rw (le→leb (offset + length zeros) (length buf) (omega (arith, size, room))) refl,
    )

-- The array holds each connected peer once.
abbrev pub Linked : TrSwarm → Type 0
Linked swarm =
    (swarm.peers_count ≤ length swarm.peers) × Distinct (take swarm.peers_count swarm.peers)

-- the swarm after a disconnection, up to the bytes in the slabs
abbrev pub gone : ℕ → ℕ → ℕ → TrPeer → TrSwarm → List ℕ → List ℕ → TrSwarm
gone now address i peer swarm bits bytes = record swarm {
  store = set swarm.store address (dropped now peer);
  bitfield_slab = bits;
  piece_buf_slab = bytes;
  peers = set swarm.peers i (get_or swarm.peers (swarm.peers_count - 1) 0);
  peers_count = swarm.peers_count - 1;
}

disconnect_peer-gone :
    (now address i : ℕ) (peer : TrPeer) (swarm : TrSwarm)
    → Linked swarm
    → i < swarm.peers_count
    → get_elem? swarm.peers i ≡ some address
    → get_elem? swarm.store address ≡ some peer
    → peer.bitfield + swarm.bytes_count ≤ length swarm.bitfield_slab
    → peer.piece_buf + swarm.piece_length ≤ length swarm.piece_buf_slab
    → (bits bytes : List ℕ) × (disconnect_peer now address swarm
        ≡ ok (gone now address i peer swarm bits bytes))
unfolding disconnect_peer
disconnect_peer-gone now address i peer swarm linked inside at_i found bits_room bytes_room =
    let bits = overwrite-zeros swarm.bitfield_slab peer.bitfield swarm.bytes_count bits_room in
    let bytes = overwrite-zeros swarm.piece_buf_slab peer.piece_buf swarm.piece_length bytes_room in
    let wiped =
      put_peer (record swarm { bitfield_slab = bits.0; piece_buf_slab = bytes.0 }) address
        (dropped now peer) in
    let removed = remove_peer_lem wiped address i linked.0 linked.1 inside at_i in
    (bits.0, bytes.0, rw (found, bits.1, bytes.1) (ap ok removed))

-- Slots are given out by the number of connections, so they are shared after a disconnection: when a
-- connected peer that is not the last of the array leaves, and another one then connects, the last one
-- of before, whose slot is that of its place, is still connected, and the new one has the same
-- place in the slab of the bitfields.
pub on_peer_connected-shared :
    (now address i q l piece_length : ℕ) (info_hash peer_id : List ℕ) (peer last_peer : TrPeer)
    (swarm : TrSwarm)
    → Linked swarm
    → i + 1 < swarm.peers_count
    → get_elem? swarm.peers i ≡ some address
    → get_elem? swarm.peers (swarm.peers_count - 1) ≡ some l
    → get_elem? swarm.store address ≡ some peer
    → get_elem? swarm.store l ≡ some last_peer
    → last_peer.bitfield ≡ swarm.bytes_count * (swarm.peers_count - 1)
    → q < length swarm.store
    → q ≢ l
    → peer.bitfield + swarm.bytes_count ≤ length swarm.bitfield_slab
    → peer.piece_buf + swarm.piece_length ≤ length swarm.piece_buf_slab
    → (after joined : TrSwarm) × (disconnect_peer now address swarm ≡ ok after)
      × (on_peer_connected now 0 q piece_length info_hash peer_id after ≡ ok joined)
      × IsLinked joined l
      × IsLinked joined q
      × (a : TrPeer) × (b : TrPeer) × (get_elem? joined.store l ≡ some a)
      × (get_elem? joined.store q ≡ some b)
      × (a.bitfield ≡ b.bitfield)
unfolding on_peer_connected send_handshake
on_peer_connected-shared now address i q l piece_length info_hash peer_id peer last_peer swarm
      linked early at_i at_end found last_found slot room other bits_room bytes_room =
    let inside : i < swarm.peers_count = omega arith in
    let done =
      disconnect_peer-gone now address i peer swarm linked inside at_i found bits_room bytes_room in
    let after = gone now address i peer swarm done.0 done.1 in
    let idx = swarm.peers_count - 1 in
    let in_store : q < length after.store =
      omega (arith, length-set swarm.store address (dropped now peer), room) in
    let (fresh, q_found) = present after.store q in_store in
    let free =
      lt→ltb idx (length after.peers)
        (omega (arith, linked.0, length-set swarm.peers i (get_or swarm.peers idx 0))) in
    let placed =
      send_handshake
        (record fresh {
          bitfield = swarm.bytes_count * idx;
          piece_buf = u32 (piece_length * idx);
          peer_state = handshaking;
        })
        info_hash peer_id in
    let joined = record after {
      store = set after.store q placed;
      peers = set after.peers idx q;
      peers_count = idx + 1;
    } in
    let survivor : address ≢ l = λ e. absurd (
      omega (
        arith,
        early,
        one_place swarm address i linked.0 linked.1 inside at_i i idx address inside (omega arith)
            at_i (at_end ∙ ap some (sym e)),
      )) in
    let stays : get_elem? joined.store l ≡ some last_peer =
      get_elem?-set_ne after.store q l placed other
      ∙ get_elem?-set_ne swarm.store address l (dropped now peer) survivor
      ∙ last_found in
    let moved : get_elem? joined.peers i ≡ some l =
      get_elem?-set_ne after.peers idx i q (λ e. omega arith)
      ∙ moved_there swarm address i linked.0 linked.1 inside at_i
      ∙ sym (last_there swarm address i linked.0 linked.1 inside at_i)
      ∙ at_end in
    (
      after,
      joined,
      done.2,
      rw (q_found, free) refl,
      (i, omega arith, moved),
      (
        idx,
        omega arith,
        get_elem?-set_self after.peers idx q (ltb→lt idx (length after.peers) free),
      ),
      last_peer,
      placed,
      stays,
      get_elem?-set_self after.store q placed in_store,
      slot,
    )
