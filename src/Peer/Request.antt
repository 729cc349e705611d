-- ===== src/Peer/Request.antt =====
-- What announcer/announcer.c asks of a peer: `assign_piece_to_peer`, `request_all_blocks` and the
-- messages that it sends.
use bite_bit_bitten.Common.{
  ℕ, zero, suc, ◌+◌, ◌-◌, ◌*◌, ◌/◌, ◌%◌, ◌^◌, Bool, not, List, [], ◌∷◌, ◌++◌, ltb, ◌==◌,
  if◌then◌else◌, length, u8, u32, u64, ◌>>>◌, pos,
}
use bite_bit_bitten.Common.Outcome.{Outcome, ok, fault, out_of_fuel, ◌>>=◌}
use bite_bit_bitten.Peer.{TrPeer, TrTorrent}
use bite_bit_bitten.Peer.Bitfield.{has_piece, set_piece}

abbrev pub block_size : ℕ
block_size = 16 * 1024

-- the bytes of `htonl` in memory
abbrev pub htonl : ℕ → List ℕ
htonl x = u8 (x >>> 24) ∷ u8 (x >>> 16) ∷ u8 (x >>> 8) ∷ u8 x ∷ []

abbrev pub send : TrPeer → List ℕ → TrPeer
send peer bytes = record peer { sent = peer.sent ++ bytes }

abbrev pub request_message : ℕ → ℕ → ℕ → List ℕ
request_message piece_idx offset length =
    htonl 13 ++ 6 ∷ (htonl piece_idx ++ (htonl offset ++ htonl length))

unfoldable pub send_request : TrPeer → ℕ → ℕ → ℕ → TrPeer
send_request peer piece_idx offset length = send peer (request_message piece_idx offset length)

unfoldable pub send_interested : TrPeer → TrPeer
send_interested peer = send peer (htonl 1 ++ 2 ∷ [])

unfoldable pub send_have : TrPeer → ℕ → TrPeer
send_have peer piece_idx = send peer (htonl 5 ++ 4 ∷ htonl piece_idx)

-- The loop over the offsets, which are `uint32_t`.
unfoldable pub request_blocks : ℕ → TrPeer → ℕ → ℕ → ℕ → Outcome TrPeer
unfolding send_request
request_blocks zero peer piece_idx piece_size offset = out_of_fuel
request_blocks (suc f) peer piece_idx piece_size offset =
    let left = piece_size - offset in
    let block_len = if ltb block_size left then block_size else left in
    let rest =
      request_blocks f (send_request peer piece_idx offset block_len) piece_idx piece_size
        (u32 (offset + block_size)) in
    if ltb offset piece_size then rest else ok peer

-- `total_size % piece_length` for the last piece; a piece length of 0 traps.
unfoldable pub piece_size : TrTorrent → Bool → Outcome ℕ
piece_size torrent is_last =
    if is_last
    then (if torrent.piece_length == 0
        then fault
        else ok (u32 (torrent.total_size % torrent.piece_length)))
    else ok torrent.piece_length

unfoldable pub request_all_blocks : TrPeer → TrTorrent → ℕ → Outcome TrPeer
unfolding request_blocks piece_size
request_all_blocks peer torrent piece_idx =
    piece_size torrent (u32 piece_idx == u64 (torrent.pieces_count + 2 ^ 64 - 1)) >>= λ size.
    request_blocks (size / block_size + 2) peer piece_idx size 0

-- The loop at `i` with `n` pieces left; `i` is an `int`.
unfoldable pub assign_from : ℕ → ℕ → TrPeer → TrTorrent → Outcome (TrPeer × TrTorrent)
unfolding has_piece set_piece request_all_blocks
assign_from zero i peer torrent = ok (peer, torrent)
assign_from (suc n) i peer torrent =
    let rest = assign_from n (i + 1) peer torrent in
    has_piece torrent.bitfield i >>= λ ours.
    if ours
    then rest
    else has_piece torrent.requested_pieces i >>= λ asked.
        if asked
        then rest
        else has_piece peer.bitfield i >>= λ theirs.
            if not theirs
            then rest
            else set_piece torrent.requested_pieces i >>= λ requested.
                request_all_blocks (record peer { current_piece = pos i; blocks_received = 0 })
                  (record torrent { requested_pieces = requested }) i
                >>= λ asking. ok (asking, record torrent { requested_pieces = requested })

unfoldable pub assign_piece_to_peer : TrPeer → TrTorrent → Outcome (TrPeer × TrTorrent)
unfolding assign_from
assign_piece_to_peer peer torrent = assign_from torrent.pieces_count 0 peer torrent
