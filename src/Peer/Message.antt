-- ===== src/Peer/Message.antt =====
-- `handle_message` and `handle_piece` of announcer/announcer.c. The results of `recv` are not looked
-- at there: a buffer takes the bytes that there are, and a number that the socket does not yield in
-- full is left undefined.
use bite_bit_bitten.Common.{
  ℕ, ◌+◌, ◌-◌, ◌*◌, ◌/◌, ◌^◌, bit_and, bit_or, List, [], ◌∷◌, ◌++◌, ltb, leb, ◌==◌, if◌then◌else◌,
  length, take, drop, u32, ◌<<<◌, negsuc, to_word,
}
use bite_bit_bitten.Common.Outcome.{Outcome, ok, fault, out_of_fuel, ◌>>=◌}
use bite_bit_bitten.Peer.{TrPeer, Link}
use bite_bit_bitten.Peer.Bitfield.{peer_set_piece}
use bite_bit_bitten.Peer.Request.{block_size, piece_size, assign_piece_to_peer, send_interested}

abbrev pub recv : ℕ → List ℕ → List ℕ × List ℕ
recv n input = (take n input, drop n input)

-- big-endian bytes after a number already read
abbrev pub word_from : ℕ → List ℕ → ℕ
word_from acc [] = acc
word_from acc (b ∷ bytes) = word_from (acc * 256 + b) bytes

abbrev pub recv_number : ℕ → List ℕ → Outcome (ℕ × List ℕ)
recv_number n input =
    if leb n (length input) then ok (word_from 0 (take n input), drop n input) else fault

-- The bits of `bitmask_state` from types/types.h.
abbrev pub peer_choking_us : ℕ
peer_choking_us = 1 <<< 2

abbrev pub peer_interested_in_us : ℕ
peer_interested_in_us = 1 <<< 3

abbrev pub set_flag : ℕ → TrPeer → TrPeer
set_flag flag peer = record peer { bitmask_state = bit_or peer.bitmask_state flag }

abbrev pub clear_flag : ℕ → TrPeer → TrPeer
clear_flag flag peer = record peer { bitmask_state = bit_and peer.bitmask_state (255 - flag) }

-- `1 << n` of an `int`, undefined when it does not fit.
abbrev pub int_bit : ℕ → Outcome ℕ
int_bit n = if ltb n 31 then ok (1 <<< n) else fault

-- `recv` into a buffer at an offset
abbrev pub overwrite : List ℕ → ℕ → List ℕ → Outcome (List ℕ)
overwrite buf offset bytes =
    if leb (offset + length bytes) (length buf)
    then ok (take offset buf ++ (bytes ++ drop (offset + length bytes) buf))
    else fault

-- The end of `handle_piece`: hand the piece over when all its blocks are there.
unfoldable pub finish_piece : Link → ℕ → Outcome Link
unfolding piece_size
finish_piece l piece_idx =
    piece_size l.torrent (piece_idx == u32 (u32 l.torrent.pieces_count + 2 ^ 32 - 1)) >>= λ size.
    int_bit (u32 (size + block_size - 1) / block_size) >>= λ top.
    if u32 l.peer.blocks_received == top - 1
    then ok (record l {
      peer = record l.peer { current_piece = negsuc 0; blocks_received = 0 };
      tasks =
          l.tasks
          ++ (record { piece_idx = piece_idx; data_len = size; bytes = l.peer.piece_buf } ∷ []);
    })
    else ok l

-- A block of the piece that the peer is to send; `block_idx` is the place of its first byte.
unfoldable pub store_block : Link → ℕ → ℕ → List ℕ → Outcome Link
unfolding finish_piece
store_block l piece_idx offset bytes = do
  buf ← overwrite l.peer.piece_buf offset bytes
  bit ← int_bit (offset / block_size)
  let got = bit_or l.peer.blocks_received bit
  finish_piece (record l { peer = record l.peer { piece_buf = buf; blocks_received = got } })
      piece_idx

unfoldable pub handle_piece : Link → ℕ → Outcome Link
unfolding store_block
handle_piece l msg_len = do
  (piece_idx, in₁) ← recv_number 4 l.input
  (offset, in₂) ← recv_number 4 in₁
  let (bytes, in₃) = recv (u32 (msg_len + 2 ^ 32 - 9)) in₂
  let l' = record l { input = in₃ }
  let other = if leb (length bytes) block_size then ok l' else fault
  if piece_idx == to_word 32 l.peer.current_piece
      then store_block l' piece_idx offset bytes
      else other

-- `peer_set_piece` and the message `have`
unfoldable pub handle_have : Link → Outcome Link
unfolding peer_set_piece
handle_have l = do
  (piece_index, rest) ← recv_number 4 l.input
  peer ← peer_set_piece l.peer piece_index
  ok (record l { peer = peer; input = rest })

-- A length of 2 ^ 31 or more is negative as an `int`, and huge as a `size_t`.
unfoldable pub handle_bitfield : Link → ℕ → Outcome Link
unfolding send_interested
handle_bitfield l len = do
  let count = if leb (2 ^ 31) len then len + (2 ^ 64 - 2 ^ 32) else len
  let (bytes, rest) = recv count l.input
  bits ← overwrite l.peer.bitfield 0 bytes
  ok (record l { peer = send_interested (record l.peer { bitfield = bits }); input = rest })

-- The loop over an unknown message: chunks of 512 bytes, none for a negative length. A socket that
-- yields no more bytes keeps it running.
unfoldable pub skip_message : Link → ℕ → Outcome Link
skip_message l remaining =
    if leb (2 ^ 31) remaining
    then ok l
    else (if leb remaining (length l.input)
        then ok (record l { input = drop remaining l.input })
        else out_of_fuel)

unfoldable pub unchoke : Link → Outcome Link
unfolding assign_piece_to_peer
unchoke l = assign_piece_to_peer (clear_flag peer_choking_us l.peer) l.torrent >>= λ r.
    ok (record l { peer = r.0; torrent = r.1 })

-- the `switch` on the kind of the message
unfoldable pub dispatch : Link → ℕ → ℕ → Outcome Link
unfolding unchoke handle_have handle_bitfield handle_piece skip_message
dispatch l msg_len id =
    if id == 0
    then ok (record l { peer = set_flag peer_choking_us l.peer })
    else if id == 1
    then unchoke l
    else if id == 2
    then ok (record l { peer = set_flag peer_interested_in_us l.peer })
    else if id == 3
    then ok (record l { peer = clear_flag peer_interested_in_us l.peer })
    else if id == 4
    then handle_have l
    else if id == 5
    then handle_bitfield l (msg_len - 1)
    else if id == 7
    then handle_piece l msg_len
    else skip_message l (msg_len - 1)

unfoldable pub handle_message : Link → Outcome Link
unfolding dispatch
handle_message l = do
  (msg_len, in₁) ← recv_number 4 l.input
  if msg_len == 0
      then ok (record l { input = in₁ })
      else recv_number 1 in₁ >>= λ r. dispatch (record l { input = r.1 }) msg_len r.0
