-- ===== src/Peer/Tests.antt =====
-- One connection of announcer/announcer.c.
use bite_bit_bitten.Common.{
  ℕ, zero, suc, ◌≤◌, ◌<◌, ◌≡◌, refl, ap, ◌⊎◌, true, List, [], ◌∷◌, ◌++◌, arith, ◌==◌, if◌then◌else◌,
  length, take, replicate, length-replicate, pos, negsuc,
}
use bite_bit_bitten.Common.Outcome.{ok}
use bite_bit_bitten.Peer.{TrPeer, TrTorrent, Link}
use bite_bit_bitten.Peer.Bitfield.{has_piece}
use bite_bit_bitten.Peer.Request.{
  send, send_have, piece_size, request_all_blocks, assign_piece_to_peer,
}
use bite_bit_bitten.Peer.Message.{handle_message}
use bite_bit_bitten.Peer.Blocks.{Covers, request_messages, request_all_blocks_lem}
use bite_bit_bitten.Peer.Assign.{Wanted, Asked, assign_piece_to_peer_lem}
use native.Mathlib.Nat.{one-le-pow}
use bite_bit_bitten.Peer.Mask.{bit, bit-nothing}
use bite_bit_bitten.Peer.Pieces.{blocks_of, Got, handed_over}
use bite_bit_bitten.Peer.Download.{piece_messages, handle_messages, handle_messages-piece}
use bite_bit_bitten.Peer.Assign.{Ready}
use bite_bit_bitten.Peer.Results.{send_have_all, handle_disk_result}
use bite_bit_bitten.Peer.Outcomes.{handle_disk_result-marks}
use bite_bit_bitten.Peer.Have.{handle_message-send_have}

-- A peer with the pieces 1, 2 and 9.
abbrev peer : TrPeer
peer = record {
  bitmask_state = 4;
  bitfield = 0x60 ∷ 0x40 ∷ [];
  current_piece = negsuc 0;
  blocks_received = 0;
  piece_buf = [];
  failed_tries = 0;
  sent = [];
}

-- Ten pieces of 40,000 bytes, the last of 10,000, with piece 1 here.
abbrev torrent : TrTorrent
torrent = record {
  bitfield = 0x40 ∷ 0 ∷ [];
  requested_pieces = 0 ∷ 0 ∷ [];
  pieces_count = 10;
  total_size = 370000;
  piece_length = 40000;
  downloaded = 0;
}

assign_piece_to_peer_lem_example :
    ((assign_piece_to_peer peer torrent ≡ ok (peer, torrent))
      × ((j : ℕ) → 0 ≤ j → j < 10 → Wanted peer torrent j → ⊥))
    ⊎ ((k : ℕ) × (k < 10) × Asked peer torrent 0 k (assign_piece_to_peer peer torrent))
assign_piece_to_peer_lem_example =
    assign_piece_to_peer_lem peer torrent
      ((omega arith), omega arith, omega arith, omega arith, omega arith, omega arith)

request_all_blocks_lem_example :
    (blocks : List (ℕ × ℕ)) × (request_all_blocks peer torrent 9
      ≡ ok (send peer (request_messages 9 blocks)))
    × Covers 0 10000 blocks
unfolding piece_size
request_all_blocks_lem_example = request_all_blocks_lem peer torrent 9 10000 refl (omega arith)

abbrev link : Link
link = record {
  peer = peer;
  torrent = torrent;
  input = 0 ∷ 0 ∷ 0 ∷ 5 ∷ 4 ∷ 0 ∷ 0 ∷ 0 ∷ 3 ∷ 0 ∷ [];
  tasks = [];
}

handle_message-send_have_example :
    (bits : List ℕ) × (handle_message link
      ≡ ok (record link { peer = record peer { bitfield = bits }; input = 0 ∷ [] }))
    × ((j : ℕ) → has_piece bits j ≡ (if j == 3 then ok true else has_piece (0x60 ∷ 0x40 ∷ []) j))
unfolding send_have
handle_message-send_have_example =
    handle_message-send_have peer link 3 (0 ∷ []) (omega arith) refl refl (omega arith)
      (omega arith)

-- A piece of two blocks, of which the second comes first.
abbrev piece : List ℕ
piece = replicate 20000 7

two_blocks : blocks_of (length piece) ≡ 2
two_blocks = ap blocks_of (length-replicate {A = ℕ} 20000 7)

abbrev downloading : Link
downloading = record {
  peer = record peer { current_piece = pos 3; piece_buf = replicate 20000 0 };
  torrent = record torrent { piece_length = length piece };
  input = piece_messages 3 piece (1 ∷ 0 ∷ []) ++ [];
  tasks = [];
}

downloading-Got : Got piece downloading.peer
downloading-Got =
    let size = length-replicate {A = ℕ} 20000 7 in
    let room = length-replicate {A = ℕ} 20000 0 in
    (
      omega (arith, size, room),
      one-le-pow (blocks_of (length piece)) 2 (omega arith),
      λ k i inside is_set lo hi in_piece. absurd (omega (arith, is_set, bit-nothing k)),
    )

both_marked : (j : ℕ) → j < 2 → bit 3 j ≡ 1
both_marked zero h = refl
both_marked (suc zero) h = refl
both_marked (suc (suc j)) h = absurd (omega arith)

handle_messages-piece_example :
    (buf : List ℕ) × (handle_messages 2 downloading
      ≡ ok (handed_over (record downloading { input = [] }) buf 3 (length piece)))
    × (take (length piece) buf ≡ piece)
unfolding piece_size
handle_messages-piece_example =
    handle_messages-piece 1 (0 ∷ []) downloading 3 piece [] (omega arith)
      (omega (arith, length-replicate {A = ℕ} 20000 7)) refl refl downloading-Got
      (
        omega (arith, two_blocks),
        refl,
        (omega (arith, two_blocks), refl, λ j h. both_marked j (omega (arith, h, two_blocks))),
      )
      refl

ready : Ready peer torrent
ready = ((omega arith), omega arith, omega arith, omega arith, omega arith, omega arith)

told : send_have_all (0 ∷ []) (peer ∷ []) 2 ≡ ok (send_have peer 2 ∷ [])
unfolding send_have_all
told = refl

told-Ready : Ready (send_have peer 2) torrent
unfolding send_have
told-Ready = ready

handle_disk_result-marks_example :
    (peers' : List TrPeer) × (torrent' : TrTorrent) × (handle_disk_result true 2
        (0 ∷ [])
        0
        (peer ∷ [])
        torrent
      ≡ ok (peers', torrent'))
    × ((j : ℕ)
        → has_piece torrent'.bitfield j
          ≡ (if j == 2 then ok true else has_piece torrent.bitfield j))
handle_disk_result-marks_example =
    handle_disk_result-marks 2 0 (0 ∷ []) (peer ∷ []) torrent (omega arith) (omega arith) told refl
      told-Ready
