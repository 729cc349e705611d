-- ===== src/Peer/Outcomes.antt =====
-- What the results of threads/tasks.c leave of the bitfields.
use bite_bit_bitten.Common.{
  ℕ, ◌+◌, ◌/◌, ◌<◌, ◌≡◌, refl, ap, ◌∙◌, inl, inr, Bool, true, false, some, List, [], arith, ◌==◌,
  if◌then◌else◌, lt→ltb, length, get_elem?, set, All, u64, pos, negsuc,
}
use bite_bit_bitten.Common.Outcome.{Outcome, ok}
use bite_bit_bitten.Peer.{TrPeer, TrTorrent}
use bite_bit_bitten.Peer.Bitfield.{has_piece}
use bite_bit_bitten.Peer.Bits.{IsByte, set_piece_lem}
use bite_bit_bitten.Peer.Request.{send, assign_piece_to_peer}
use bite_bit_bitten.Peer.Blocks.{request_messages}
use bite_bit_bitten.Peer.Assign.{Ready, assign_piece_to_peer_lem}
use bite_bit_bitten.Peer.Results.{
  clear_piece, handle_sha1_result, send_have_all, assign_at, handle_disk_result,
}

clear_piece-no_piece : (bits : List ℕ) → 0 < length bits → clear_piece bits (negsuc 0) ≡ ok bits
unfolding clear_piece
clear_piece-no_piece bits some_byte = rw (lt→ltb 0 (length bits) some_byte) refl

handle_sha1_result-no_piece :
    (piece_idx : ℕ) (peer : TrPeer) (torrent : TrTorrent) {r : TrPeer × TrTorrent}
    → peer.current_piece ≡ negsuc 0
    → 0 < length torrent.requested_pieces
    → assign_piece_to_peer (record peer { failed_tries = peer.failed_tries + 1 }) torrent ≡ ok r
    → handle_sha1_result false piece_idx peer torrent ≡ ok (r.0, r.1, [])
unfolding handle_sha1_result
handle_sha1_result-no_piece piece_idx peer torrent current some_byte assigned =
    let cleared : clear_piece torrent.requested_pieces peer.current_piece
        ≡ ok torrent.requested_pieces =
      ap (clear_piece torrent.requested_pieces) current
      ∙ clear_piece-no_piece torrent.requested_pieces some_byte in
    rw (cleared, assigned) refl

still_set : {o : Outcome Bool} (b : Bool) → o ≡ ok true → (if b then ok true else o) ≡ ok true
still_set true h = refl
still_set false h = h

-- When a piece fails its hash after `handle_piece` has set the current piece of the peer to -1, no bit
-- of the requested pieces is cleared: the handler returns, and every piece that was requested before,
-- the failed one too, is still requested after.
pub handle_sha1_result-requested :
    (piece_idx : ℕ) (peer : TrPeer) (torrent : TrTorrent)
    → peer.current_piece ≡ negsuc 0
    → 0 < length torrent.requested_pieces
    → Ready peer torrent
    → (peer' : TrPeer) × (torrent' : TrTorrent) × (handle_sha1_result false piece_idx peer torrent
        ≡ ok (peer', torrent', []))
      × ((j : ℕ)
          → has_piece torrent.requested_pieces j ≡ ok true
          → has_piece torrent'.requested_pieces j ≡ ok true)
handle_sha1_result-requested piece_idx peer torrent current some_byte ready =
    elim (assign_piece_to_peer_lem (record peer { failed_tries = peer.failed_tries + 1 }) torrent
      ready) [
        | inl nothing ↦ (
          record peer { failed_tries = peer.failed_tries + 1 },
          torrent,
          handle_sha1_result-no_piece piece_idx peer torrent current some_byte nothing.0,
          λ j h. h,
        )
        | inr found ↦
            let asked = found.2.2 in
            (
              _,
              record torrent { requested_pieces = asked.0 },
              handle_sha1_result-no_piece piece_idx peer torrent current some_byte asked.3,
              λ j h. asked.4 j ∙ still_set (j == found.0) h,
            )
      ]

-- When a piece is on the disk, the bitfields have a bit for every piece, the piece length is not 0 and a
-- piece with one more block fits 32 bits, and the peers that the messages and the next assignment go to
-- are there, the handler marks it in the bitfield of the torrent and no other piece, whatever the peers
-- are sent and asked.
pub handle_disk_result-marks :
    (piece_idx p : ℕ) (swarm : List ℕ) (peers : List TrPeer) (torrent : TrTorrent)
    {peers' : List TrPeer} {peer : TrPeer}
    → All IsByte torrent.bitfield
    → piece_idx / 8 < length torrent.bitfield
    → send_have_all swarm peers piece_idx ≡ ok peers'
    → get_elem? peers' p ≡ some peer
    → Ready peer torrent
    → (peers'' : List TrPeer) × (torrent' : TrTorrent) × (handle_disk_result true piece_idx swarm p
          peers torrent
        ≡ ok (peers'', torrent'))
      × ((j : ℕ)
          → has_piece torrent'.bitfield j
            ≡ (if j == piece_idx then ok true else has_piece torrent.bitfield j))
unfolding handle_disk_result assign_at
handle_disk_result-marks piece_idx p swarm peers torrent {peers'} {peer} bytes room sent there
      ready =
    let marked = set_piece_lem torrent.bitfield piece_idx bytes room in
    let torrent₁ : TrTorrent = record torrent {
      bitfield = marked.0;
      downloaded = u64 (torrent.downloaded + torrent.piece_length);
    } in
    let ready₁ : Ready peer torrent₁ =
      (ready.0, omega (arith, marked.3, ready.1), ready.2, ready.3, ready.4, ready.5) in
    elim (assign_piece_to_peer_lem peer torrent₁ ready₁) [
      | inl nothing ↦
          (set peers' p peer, torrent₁, rw (marked.1, sent, there, nothing.0) refl, marked.4)
      | inr found ↦
          let asked = found.2.2 in
          (
            set peers' p (
                send (record peer { current_piece = pos found.0; blocks_received = 0 })
                  (request_messages found.0 asked.1)),
            record torrent₁ { requested_pieces = asked.0 },
            rw (marked.1, sent, there, asked.3) refl,
            marked.4,
          )
    ]
