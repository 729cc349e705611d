-- ===== src/Peer/Download.antt =====
-- A piece that arrives as messages, one for each block.
use bite_bit_bitten.Common.{
  ℕ, zero, suc, ◌+◌, ◌-◌, ◌*◌, ◌^◌, ◌≤◌, ◌<◌, bit_or, ◌≡◌, refl, ap, ◌∙◌, inl, inr, true, List, [],
  ◌∷◌, ◌++◌, append_assoc, arith, ◌==◌, ==_iff, length, take, drop-append, take-append, u32, pos,
}
use bite_bit_bitten.Common.Outcome.{Outcome, ok, ◌>>=◌}
use bite_bit_bitten.Peer.{Link}
use bite_bit_bitten.Peer.Request.{block_size, htonl, piece_size}
use bite_bit_bitten.Peer.Message.{store_block, handle_piece, dispatch, handle_message}
use bite_bit_bitten.Peer.Mask.{bit, full-bit, bit-full, bit_or-lt}
use bite_bit_bitten.Peer.Have.{recv_number-htonl, handle_message-dispatch}
use bite_bit_bitten.Peer.Pieces.{
  blocks_of, block, Got, handed_over, stored, store_block_lem, length-block, pow_lt,
}

-- the message with the block `k` of a piece
abbrev pub piece_message : ℕ → List ℕ → ℕ → List ℕ
piece_message piece_idx piece k =
    htonl (9 + length (block piece k))
    ++ 7 ∷ (htonl piece_idx ++ (htonl (k * block_size) ++ block piece k))

abbrev pub piece_messages : ℕ → List ℕ → List ℕ → List ℕ
piece_messages piece_idx piece [] = []
piece_messages piece_idx piece (k ∷ ks) =
    piece_message piece_idx piece k ++ piece_messages piece_idx piece ks

-- Each block of the list is one that is not marked when its turn comes, and in the end all are.
abbrev pub Left : ℕ → ℕ → List ℕ → Type 0
Left t mask [] = (j : ℕ) → j < t → bit mask j ≡ 1
Left t mask (k ∷ ks) = (k < t) × (bit mask k ≡ 0) × Left t (bit_or mask (2 ^ k)) ks

handle_piece-store_block :
    (l : Link) (piece_idx offset : ℕ) (bytes rest : List ℕ)
    → piece_idx < 2 ^ 32
    → offset < 2 ^ 32
    → length bytes < 2 ^ 31
    → l.peer.current_piece ≡ pos piece_idx
    → l.input ≡ htonl piece_idx ++ (htonl offset ++ (bytes ++ rest))
    → handle_piece l (9 + length bytes)
      ≡ store_block (record l { input = rest }) piece_idx offset bytes
unfolding handle_piece
handle_piece-store_block l piece_idx offset bytes rest small near short current input =
    let len : u32 (9 + length bytes + 2 ^ 32 - 9) ≡ length bytes = omega arith in
    let mine : (piece_idx == u32 piece_idx) ≡ true = (==_iff _ _).1 (omega arith) in
    rw
      (
        input,
        recv_number-htonl piece_idx (htonl offset ++ (bytes ++ rest)) small,
        recv_number-htonl offset (bytes ++ rest) near,
        len,
        take-append bytes rest,
        drop-append bytes rest,
        current,
        mine,
      )
      refl

dispatch-piece : (l : Link) (len : ℕ) → dispatch l len 7 ≡ handle_piece l len
unfolding dispatch
dispatch-piece l len = refl

message_bytes :
    (piece_idx k : ℕ) (piece rest : List ℕ)
    → piece_message piece_idx piece k ++ rest
      ≡ htonl (9 + length (block piece k))
        ++ 7 ∷ (htonl piece_idx ++ (htonl (k * block_size) ++ (block piece k ++ rest)))
message_bytes piece_idx k piece rest = refl

handle_message-piece :
    (l : Link) (piece_idx k : ℕ) (piece rest : List ℕ)
    → piece_idx < 2 ^ 32
    → length piece ≤ 30 * block_size
    → k < blocks_of (length piece)
    → l.peer.current_piece ≡ pos piece_idx
    → l.input ≡ piece_message piece_idx piece k ++ rest
    → handle_message l
      ≡ store_block (record l { input = rest }) piece_idx (k * block_size) (block piece k)
handle_message-piece l piece_idx k piece rest small few inside current input =
    let len = 9 + length (block piece k) in
    let body = htonl piece_idx ++ (htonl (k * block_size) ++ (block piece k ++ rest)) in
    handle_message-dispatch l len 7 body (omega arith) (omega (arith, length-block piece k))
      (input ∙ message_bytes piece_idx k piece rest)
    ∙ dispatch-piece (record l { input = body }) len
    ∙ handle_piece-store_block (record l { input = body }) piece_idx (k * block_size)
        (block piece k) rest small (omega arith) (omega (arith, length-block piece k)) current refl

-- `handle_message` `n` times
unfoldable pub handle_messages : ℕ → Link → Outcome Link
handle_messages zero l = ok l
handle_messages (suc n) l = handle_message l >>= λ l'. handle_messages n l'

Left-marked :
    (piece : List ℕ) (l : Link) (k : ℕ) (ks : List ℕ)
    → Got piece l.peer
    → Left (blocks_of (length piece)) l.peer.blocks_received (k ∷ ks)
    → let mask = bit_or l.peer.blocks_received (2 ^ k) in
      let full = 2 ^ blocks_of (length piece) - 1 in
      (mask ≡ full → ks ≡ []) × (ks ≡ [] → mask ≡ full)
Left-marked piece l k [] got left =
    let t = blocks_of (length piece) in
    let mask = bit_or l.peer.blocks_received (2 ^ k) in
    let small = bit_or-lt t l.peer.blocks_received (2 ^ k) got.1 (pow_lt k t left.0) in
    (λ h. refl, λ h. full-bit t mask small left.2)
Left-marked piece l k (j ∷ ks) got left =
    let t = blocks_of (length piece) in
    let mask = bit_or l.peer.blocks_received (2 ^ k) in
    (λ h. absurd (omega (arith, ap (λ m. bit m j) h, bit-full t j left.2.0, left.2.1)), λ h. cc)

-- A peer that is asked for a piece of at most 30 blocks sends its blocks, in any order, one that is not
-- marked each time, until all are marked. Then `handle_message` takes in these messages and no more:
-- with the last of them, and not before, the piece goes to the pool once, in a buffer that begins with
-- exactly its bytes, and the peer has no current piece any more.
pub handle_messages-piece :
    (k : ℕ) (ks : List ℕ) (l : Link) (piece_idx : ℕ) (piece rest : List ℕ)
    → piece_idx < 2 ^ 32
    → length piece ≤ 30 * block_size
    → piece_size l.torrent (piece_idx == u32 (u32 l.torrent.pieces_count + 2 ^ 32 - 1))
      ≡ ok (length piece)
    → l.peer.current_piece ≡ pos piece_idx
    → Got piece l.peer
    → Left (blocks_of (length piece)) l.peer.blocks_received (k ∷ ks)
    → l.input ≡ piece_messages piece_idx piece (k ∷ ks) ++ rest
    → (buf : List ℕ) × (handle_messages (length (k ∷ ks)) l
        ≡ ok (handed_over (record l { input = rest }) buf piece_idx (length piece)))
      × (take (length piece) buf ≡ piece)
unfolding handle_messages
handle_messages-piece k [] l piece_idx piece rest small few known current got left input =
    let split = append_assoc (piece_message piece_idx piece k) [] rest in
    let first =
      handle_message-piece l piece_idx k piece rest small few left.0 current (input ∙ split) in
    let step = store_block_lem (record l { input = rest }) piece_idx k piece known few left.0 got in
    let marked = Left-marked piece l k [] got left in
    elim step.1 [
      | inl done ↦ (step.0, rw (first ∙ done.1) refl, done.2)
      | inr on ↦ absurd (on.0 (marked.1 refl))
    ]
handle_messages-piece k (j ∷ ks) l piece_idx piece rest small few known current got left input =
    let more = piece_messages piece_idx piece (j ∷ ks) ++ rest in
    let split =
      append_assoc (piece_message piece_idx piece k) (piece_messages piece_idx piece (j ∷ ks))
        rest in
    let first =
      handle_message-piece l piece_idx k piece more small few left.0 current (input ∙ split) in
    let next = record l { input = more } in
    let step = store_block_lem next piece_idx k piece known few left.0 got in
    let marked = Left-marked piece l k (j ∷ ks) got left in
    let mask = bit_or l.peer.blocks_received (2 ^ k) in
    elim step.1 [
      | inl done ↦ let e = marked.0 done.0 in absurd (cc e)
      | inr on ↦
          let after =
            handle_messages-piece j ks (stored next step.0 mask) piece_idx piece rest small few
              known current on.2 left.2 refl in
          (after.0, rw (first ∙ on.1) after.1, after.2)
    ]
