-- ===== src/Peer/Blocks.antt =====
-- The requests for a piece cover it: block after block, none empty and none over 16 KiB.
use bite_bit_bitten.Common.{
  ℕ, zero, suc, ◌+◌, ◌-◌, ◌*◌, ◌/◌, ◌%◌, ◌^◌, ◌≤◌, ◌<◌, min, ◌≡◌, refl, sym, ap, ◌∙◌, subst, inl,
  inr, Bool, true, false, List, [], ◌∷◌, ◌++◌, append_assoc, append-nil, arith, ltb, ◌==◌,
  if◌then◌else◌, ltb→lt, ltb→ge, ==_iff, Bool-cases, u32, u64,
}
use bite_bit_bitten.Common.Outcome.{ok}
use native.Mathlib.Nat.{mod-lt}
use bite_bit_bitten.Peer.{TrPeer, TrTorrent}
use bite_bit_bitten.Peer.Request.{
  block_size, send, request_message, send_request, request_blocks, piece_size, request_all_blocks,
}

-- The blocks, each an offset and a length, fill the range from `start` to `stop`.
abbrev pub Covers : ℕ → ℕ → List (ℕ × ℕ) → Type 0
Covers start stop [] = start ≡ stop
Covers start stop ((offset, len) ∷ blocks) =
    (offset ≡ start) × (0 < len) × (len ≤ block_size) × Covers (start + len) stop blocks

abbrev pub request_messages : ℕ → List (ℕ × ℕ) → List ℕ
request_messages piece_idx [] = []
request_messages piece_idx ((offset, len) ∷ blocks) =
    request_message piece_idx offset len ++ request_messages piece_idx blocks

abbrev block_len : ℕ → ℕ → ℕ
block_len size offset = if ltb block_size (size - offset) then block_size else size - offset

request_blocks_step :
    (f : ℕ) (peer : TrPeer) (piece_idx size offset : ℕ)
    → size + block_size ≤ 2 ^ 32
    → ltb offset size ≡ true
    → request_blocks (suc f) peer piece_idx size offset
      ≡ request_blocks f
          (send_request peer piece_idx offset (block_len size offset))
          piece_idx
          size
          (offset + block_size)
unfolding request_blocks
request_blocks_step f peer idx size offset small h =
    let lt = ltb→lt offset size h in
    let next : u32 (offset + block_size) ≡ offset + block_size = omega arith in
    rw h
      (ap (request_blocks f (send_request peer idx offset (block_len size offset)) idx size) next)

request_blocks_lem :
    (f : ℕ) (peer : TrPeer) (piece_idx size offset : ℕ)
    → size + block_size ≤ 2 ^ 32
    → offset < size + block_size
    → size + block_size ≤ offset + f * block_size
    → (blocks : List (ℕ × ℕ)) × (request_blocks f peer piece_idx size offset
        ≡ ok (send peer (request_messages piece_idx blocks)))
      × Covers (min offset size) size blocks
unfolding request_blocks send_request
request_blocks_lem zero peer idx size offset small near fuel = absurd (omega arith)
request_blocks_lem (suc f) peer idx size offset small near fuel =
    elim (Bool-cases (ltb offset size)) [
      | inl h ↦
          let lt = ltb→lt offset size h in
          let len = block_len size offset in
          let rest =
            request_blocks_lem f (send_request peer idx offset len) idx size (offset + block_size)
              small (omega arith) (omega arith) in
          let next : min (offset + block_size) size ≡ min offset size + len = ground arith in
          (
            (offset, len) ∷ rest.0,
            request_blocks_step f peer idx size offset small h
                ∙ rest.1
                ∙ ap (λ s. ok (record peer { sent = s }))
                    (append_assoc peer.sent (request_message idx offset len)
                      (request_messages idx rest.0)),
            (
              omega arith,
              ground arith,
              ground arith,
              subst (λ t. Covers t size rest.0) next rest.2,
            ),
          )
      | inr h ↦
          let ge = ltb→ge offset size h in
          (
            [],
            rw h (ap (λ s. ok (record peer { sent = s })) (sym (append-nil peer.sent))),
            omega arith,
          )
    ]

-- When the piece that is asked for has a size (its length is not 0 in the last piece) that leaves
-- room for one block below 2 ^ 32, the requests sent are those of blocks that cover it from 0 to its
-- size, in order, with no gap and no overlap, none empty and none over 16 KiB.
pub request_all_blocks_lem :
    (peer : TrPeer) (torrent : TrTorrent) (piece_idx size : ℕ)
    → piece_size torrent (u32 piece_idx == u64 (torrent.pieces_count + 2 ^ 64 - 1)) ≡ ok size
    → size + block_size ≤ 2 ^ 32
    → (blocks : List (ℕ × ℕ)) × (request_all_blocks peer torrent piece_idx
        ≡ ok (send peer (request_messages piece_idx blocks)))
      × Covers 0 size blocks
unfolding request_all_blocks
request_all_blocks_lem peer torrent piece_idx size known small =
    let zero_min : min 0 size ≡ 0 = omega arith in
    let all =
      request_blocks_lem (size / block_size + 2) peer piece_idx size 0 small (omega arith)
        (omega arith) in
    (all.0, rw known all.1, subst (λ t. Covers t size all.0) zero_min all.2)

-- When the total size is a whole number of pieces, nothing at all is asked for the last piece: its
-- size is taken to be the remainder, which is 0.
pub request_all_blocks-exact :
    (peer : TrPeer) (torrent : TrTorrent) (piece_idx : ℕ)
    → u32 piece_idx ≡ u64 (torrent.pieces_count + 2 ^ 64 - 1)
    → 0 < torrent.piece_length
    → torrent.total_size % torrent.piece_length ≡ 0
    → request_all_blocks peer torrent piece_idx ≡ ok peer
unfolding request_all_blocks piece_size request_blocks
request_all_blocks-exact peer torrent piece_idx last some_length whole =
    let zero_length : (torrent.piece_length == 0) ≡ false = ground arith in
    rw
      (
        (==_iff (u32 piece_idx) (u64 (torrent.pieces_count + 2 ^ 64 - 1))).1 last,
        zero_length,
        whole,
      )
      refl

pub piece_size_lem :
    (torrent : TrTorrent) (is_last : Bool)
    → 0 < torrent.piece_length
    → torrent.piece_length < 2 ^ 32
    → (size : ℕ) × (piece_size torrent is_last ≡ ok size) × (size ≤ torrent.piece_length)
unfolding piece_size
piece_size_lem torrent true some_length small =
    let zero_length : (torrent.piece_length == 0) ≡ false = ground arith in
    let below : u32 (torrent.total_size % torrent.piece_length) ≤ torrent.piece_length =
      omega (arith, mod-lt torrent.total_size some_length) in
    (u32 (torrent.total_size % torrent.piece_length), rw zero_length refl, below)
piece_size_lem torrent false some_length small = (torrent.piece_length, refl, omega arith)
