-- ===== src/Peer/Results.antt =====
-- What becomes of a piece after the pool: `task_sha1_verify`, `handle_sha1_result` and
-- `handle_disk_result` of threads/tasks.c.
use bite_bit_bitten.Common.{
  ℕ, ◌+◌, ◌-◌, ◌*◌, ◌/◌, bit_and, Bool, true, false, ◌&&◌, List, [], ◌∷◌, ltb, leb, if◌then◌else◌,
  length, get_elem?, set, take, slice, u32, u64, ℤ, pos, negsuc,
}
use bite_bit_bitten.Common.{same_list}
use bite_bit_bitten.Common.Outcome.{of_option, Outcome, ok, fault, ◌>>=◌}
use bite_bit_bitten.Sha1.{sha1_hash}
use bite_bit_bitten.Peer.{TrPeer, TrTorrent, PieceTask}
use bite_bit_bitten.Peer.Bitfield.{bit_of, set_piece}
use bite_bit_bitten.Peer.Request.{send_have, assign_piece_to_peer}

-- Whether the hash of the first `data_len` bytes is the one that `pieces` of the torrent has.
unfoldable pub task_sha1_verify : List ℕ → PieceTask → Outcome Bool
task_sha1_verify pieces task =
    let expected = slice pieces (task.piece_idx * 20) 20 in
    if leb (task.data_len) (length task.bytes) && leb (task.piece_idx * 20 + 20) (length pieces)
    then ok (same_list (sha1_hash (take task.data_len task.bytes)) expected)
    else fault

-- `requested_pieces[i / 8] &= ~(1 << (7 - i % 8))` of an `int`. C divides towards 0, so the index of
-- -1 to -7 is 0, and the shift is then by more than 7, which leaves every bit of a byte alone.
unfoldable pub clear_piece : List ℕ → ℤ → Outcome (List ℕ)
clear_piece bits (pos i) =
    of_option (get_elem? bits (i / 8)) >>= λ b. ok (set bits (i / 8) (bit_and b (255 - bit_of i)))
clear_piece bits (negsuc n) = if ltb n 7 && ltb 0 (length bits) then ok bits else fault

-- When the hash is right the piece goes to the pool again: to be written, with the number of pieces
-- for its length.
unfoldable pub handle_sha1_result :
    Bool → ℕ → TrPeer → TrTorrent → Outcome (TrPeer × TrTorrent × List PieceTask)
handle_sha1_result true piece_idx peer torrent = ok (
  peer,
  torrent,
  record { piece_idx = piece_idx; data_len = u32 torrent.pieces_count; bytes = peer.piece_buf }
      ∷ [],
)
handle_sha1_result false piece_idx peer torrent =
    clear_piece torrent.requested_pieces peer.current_piece >>= λ bits.
    assign_piece_to_peer (record peer { failed_tries = peer.failed_tries + 1 })
      (record torrent { requested_pieces = bits })
    >>= λ r. ok (r.0, r.1, [])

-- The loop over `swarm->peers`, which point into the peers.
unfoldable pub send_have_all : List ℕ → List TrPeer → ℕ → Outcome (List TrPeer)
send_have_all [] peers piece_idx = ok peers
send_have_all (p ∷ pointers) peers piece_idx = of_option (get_elem? peers p) >>= λ peer.
    send_have_all pointers (set peers p (send_have peer piece_idx)) piece_idx

unfoldable pub assign_at : List TrPeer → ℕ → TrTorrent → Outcome (List TrPeer × TrTorrent)
assign_at peers p torrent = of_option (get_elem? peers p) >>= λ peer.
    assign_piece_to_peer peer torrent >>= λ r. ok (set peers p r.0, r.1)

unfoldable pub handle_disk_result :
    Bool → ℕ → List ℕ → ℕ → List TrPeer → TrTorrent → Outcome (List TrPeer × TrTorrent)
handle_disk_result false piece_idx swarm p peers torrent =
    clear_piece torrent.requested_pieces (pos piece_idx) >>= λ bits.
    assign_at peers p (record torrent { requested_pieces = bits })
handle_disk_result true piece_idx swarm p peers torrent =
    set_piece torrent.bitfield piece_idx >>= λ bits.
    send_have_all swarm peers piece_idx >>= λ peers'. assign_at peers' p (record torrent {
      bitfield = bits;
      downloaded = u64 (torrent.downloaded + torrent.piece_length);
    })
