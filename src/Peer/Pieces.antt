-- ===== src/Peer/Pieces.antt =====
-- How `handle_piece` of announcer/announcer.c puts a piece together, block by block in any order.
use bite_bit_bitten.Common.{
  ℕ, suc, ◌+◌, ◌-◌, ◌*◌, ◌/◌, ◌^◌, ◌≤◌, ◌<◌, min, bit_or, ◌≡◌, refl, sym, ap, ◌∙◌, ◌≢◌, ◌⊎◌, inl,
  inr, true, false, List, [], ◌∷◌, ◌++◌, arith, ltb, leb, ◌==◌, ltb→lt, lt→ltb, le→ltb, ==_iff,
  Bool-cases, length, get_elem?, take, drop, length-take, length-drop, slice, u32, negsuc,
}
use bite_bit_bitten.Common.Outcome.{ok, fault}
use native.Mathlib.Decide.{dec_lt}
use native.Mathlib.Nat.{pow-suc, pow-le-pow_right, one-le-pow}
use bite_bit_bitten.Common.Bits.{all_below_sound}
use bite_bit_bitten.Peer.{TrPeer, Link}
use bite_bit_bitten.Peer.Request.{block_size, piece_size}
use bite_bit_bitten.Peer.Message.{int_bit, overwrite, finish_piece, store_block}
use bite_bit_bitten.Peer.Bits.{==-false, ==-ne}
use bite_bit_bitten.Peer.Mask.{bit, bit-le, bit-bit_or, bit-pow_ne, bit-full, bit_or-lt}
use bite_bit_bitten.Peer.Buffer.{overwrite_lem, get_elem?-take, get_elem?-dropped, get_elem?-ext}

abbrev pub blocks_of : ℕ → ℕ
blocks_of size = (size + block_size - 1) / block_size

-- the block `k` of a piece
abbrev pub block : List ℕ → ℕ → List ℕ
block piece k = slice piece (k * block_size) block_size

-- The buffer has room for the piece, and holds the blocks of it that are marked as received.
abbrev pub Got : List ℕ → TrPeer → Type 0
Got piece peer =
    (length piece ≤ length peer.piece_buf)
    × (peer.blocks_received < 2 ^ blocks_of (length piece))
    × ((k i : ℕ)
        → k < blocks_of (length piece)
        → bit peer.blocks_received k ≡ 1
        → k * block_size ≤ i
        → i < (k + 1) * block_size
        → i < length piece
        → get_elem? peer.piece_buf i ≡ get_elem? piece i)

small_pow : (t : ℕ) → t < 31 → 2 ^ t < 2 ^ 31
small_pow t h = ltb→lt _ _ (all_below_sound 31 (λ n. ltb (2 ^ n) (2 ^ 31)) t refl h)

int_bit_lem : (k : ℕ) → k < 31 → int_bit k ≡ ok (2 ^ k)
int_bit_lem k h = let one : 1 * 2 ^ k ≡ 2 ^ k = omega arith in rw (lt→ltb k 31 h) (ap ok one)

-- What the peer is after the piece was handed over, and the task.
abbrev pub handed_over : Link → List ℕ → ℕ → ℕ → Link
handed_over l buf piece_idx size = record l {
  peer = record l.peer { piece_buf = buf; current_piece = negsuc 0; blocks_received = 0 };
  tasks = l.tasks ++ (record { piece_idx = piece_idx; data_len = size; bytes = buf } ∷ []);
}

-- What the link is with a block written and marked.
abbrev pub stored : Link → List ℕ → ℕ → Link
stored l buf mask = record l { peer = record l.peer { piece_buf = buf; blocks_received = mask } }

store_block-stored :
    (l : Link) (piece_idx k : ℕ) (bytes buf : List ℕ)
    → overwrite l.peer.piece_buf (k * block_size) bytes ≡ ok buf
    → k < 31
    → store_block l piece_idx (k * block_size) bytes
      ≡ finish_piece (stored l buf (bit_or l.peer.blocks_received (2 ^ k))) piece_idx
unfolding store_block
store_block-stored l piece_idx k bytes buf written small =
    let place : k * block_size / block_size ≡ k = omega arith in
    rw (written, place, int_bit_lem k small) refl

finish_piece-full :
    (l : Link) (piece_idx size : ℕ)
    → piece_size l.torrent (piece_idx == u32 (u32 l.torrent.pieces_count + 2 ^ 32 - 1)) ≡ ok size
    → size ≤ 30 * block_size
    → l.peer.blocks_received ≡ 2 ^ blocks_of size - 1
    → finish_piece l piece_idx ≡ ok (handed_over l l.peer.piece_buf piece_idx size)
unfolding finish_piece
finish_piece-full l piece_idx size known few full =
    let blocks : u32 (size + block_size - 1) / block_size ≡ blocks_of size = omega arith in
    let small = small_pow (blocks_of size) (omega arith) in
    let word : u32 l.peer.blocks_received ≡ 2 ^ blocks_of size - 1 = omega (arith, full) in
    let same : (u32 l.peer.blocks_received == 2 ^ blocks_of size - 1) ≡ true =
      (==_iff _ _).1 word in
    rw (known, blocks, int_bit_lem (blocks_of size) (omega arith), same) refl

finish_piece-more :
    (l : Link) (piece_idx size : ℕ)
    → piece_size l.torrent (piece_idx == u32 (u32 l.torrent.pieces_count + 2 ^ 32 - 1)) ≡ ok size
    → size ≤ 30 * block_size
    → l.peer.blocks_received < 2 ^ blocks_of size
    → l.peer.blocks_received ≢ 2 ^ blocks_of size - 1
    → finish_piece l piece_idx ≡ ok l
unfolding finish_piece
finish_piece-more l piece_idx size known few bound ne =
    let blocks : u32 (size + block_size - 1) / block_size ≡ blocks_of size = omega arith in
    let small = small_pow (blocks_of size) (omega arith) in
    let word : u32 l.peer.blocks_received ≡ l.peer.blocks_received = omega arith in
    let other : (u32 l.peer.blocks_received == 2 ^ blocks_of size - 1) ≡ false =
      ==-false _ _ (λ e. ne (sym word ∙ e)) in
    rw (known, blocks, int_bit_lem (blocks_of size) (omega arith), other) refl

pub length-block :
    (piece : List ℕ) (k : ℕ)
    → length (block piece k) ≡ min block_size (length piece - k * block_size)
length-block piece k = omega (
  arith,
  length-take block_size (drop (k * block_size) piece),
  length-drop (k * block_size) piece,
)

pub pow_lt : (k t : ℕ) → k < t → 2 ^ k < 2 ^ t
pow_lt k t h = omega (
  arith,
  pow-suc 2 k,
  one-le-pow k 2 (omega arith),
  pow-le-pow_right {n = 2} (omega arith) {i = suc k} {j = t} h,
)

Got-set :
    (piece : List ℕ) (peer : TrPeer) (k : ℕ) (buf : List ℕ)
    → Got piece peer
    → k < blocks_of (length piece)
    → length buf ≡ length peer.piece_buf
    → ((i : ℕ)
        → i < length (block piece k)
        → get_elem? buf (k * block_size + i) ≡ get_elem? (block piece k) i)
    → ((i : ℕ)
        → (i < k * block_size) ⊎ (k * block_size + length (block piece k) ≤ i)
        → get_elem? buf i ≡ get_elem? peer.piece_buf i)
    → Got piece
        (record peer { piece_buf = buf; blocks_received = bit_or peer.blocks_received (2 ^ k) })
Got-set piece peer k buf got inside size here there =
    let len = length (block piece k) in
    let len_is : len ≡ min block_size (length piece - k * block_size) = length-block piece k in
    (
      omega (arith, size, got.0),
      bit_or-lt (blocks_of (length piece)) peer.blocks_received (2 ^ k) got.1
          (pow_lt k (blocks_of (length piece)) inside),
      λ j i in_t is_set lo hi in_piece. elim (Bool-cases (j == k)) [
        | inl h ↦
            let same : j ≡ k = (==_iff j k).0 h in
            let place : k * block_size + (i - k * block_size) ≡ i = omega arith in
            let off : i - k * block_size < block_size = omega arith in
            ap (get_elem? buf) (sym place)
            ∙ here (i - k * block_size) (omega arith)
            ∙ get_elem?-take block_size (i - k * block_size) (drop (k * block_size) piece) off
            ∙ get_elem?-dropped (k * block_size) (i - k * block_size) piece
            ∙ ap (get_elem? piece) place
        | inr h ↦
            let other = ==-ne j k h in
            let outside : (i < k * block_size) ⊎ (k * block_size + len ≤ i) = elim (dec_lt j k) [
              | yes lower ↦ inl (omega arith)
              | no higher ↦ inr (omega arith)
            ] in
            let before : bit peer.blocks_received j ≡ 1 = omega (
              arith,
              is_set,
              bit-bit_or j peer.blocks_received (2 ^ k),
              bit-pow_ne k j other,
              bit-le j peer.blocks_received,
            ) in
            there i outside ∙ got.2 j i in_t before lo hi in_piece
      ],
    )

Got-full :
    (piece : List ℕ) (peer : TrPeer)
    → Got piece peer
    → peer.blocks_received ≡ 2 ^ blocks_of (length piece) - 1
    → take (length piece) peer.piece_buf ≡ piece
Got-full piece peer got full = get_elem?-ext (length piece) peer.piece_buf piece refl (λ i h.
    let k = i / block_size in
    let in_t : k < blocks_of (length piece) = omega arith in
    got.2 k i in_t (ap (λ m. bit m k) full ∙ bit-full (blocks_of (length piece)) k in_t)
      (omega arith) (omega arith) h)

-- For a piece of at most 30 blocks whose size the torrent knows: when a block of it arrives at its
-- offset, in whatever order, it is written and marked. If that makes all blocks marked, the piece is
-- handed to the pool, with its size, in a buffer that begins with exactly the piece, and the peer has
-- no current piece any more. If not, nothing else changes, and the buffer holds what is marked.
pub store_block_lem :
    (l : Link) (piece_idx k : ℕ) (piece : List ℕ)
    → piece_size l.torrent (piece_idx == u32 (u32 l.torrent.pieces_count + 2 ^ 32 - 1))
      ≡ ok (length piece)
    → length piece ≤ 30 * block_size
    → k < blocks_of (length piece)
    → Got piece l.peer
    → (buf : List ℕ) × (((bit_or l.peer.blocks_received (2 ^ k) ≡ 2 ^ blocks_of (length piece) - 1)
          × (store_block l piece_idx (k * block_size) (block piece k)
              ≡ ok (handed_over l buf piece_idx (length piece)))
          × (take (length piece) buf ≡ piece))
        ⊎ ((bit_or l.peer.blocks_received (2 ^ k) ≢ 2 ^ blocks_of (length piece) - 1)
            × (store_block l piece_idx (k * block_size) (block piece k)
                ≡ ok (stored l buf (bit_or l.peer.blocks_received (2 ^ k))))
            × Got piece (stored l buf (bit_or l.peer.blocks_received (2 ^ k))).peer))
store_block_lem l piece_idx k piece known few inside got =
    let t = blocks_of (length piece) in
    let m = bit_or l.peer.blocks_received (2 ^ k) in
    let written =
      overwrite_lem l.peer.piece_buf (k * block_size) (block piece k)
        (omega (arith, length-block piece k, got.0)) in
    let buf = written.0 in
    let l' = stored l buf m in
    let got' = Got-set piece l.peer k buf got inside written.2 written.3 written.4 in
    let begin = store_block-stored l piece_idx k (block piece k) buf written.1 (omega arith) in
    (
      buf,
      elim (Bool-cases (m == 2 ^ t - 1)) [
        | inl h ↦
            let full = (==_iff m (2 ^ t - 1)).0 h in
            inl (
              full,
              begin ∙ finish_piece-full l' piece_idx (length piece) known few full,
              Got-full piece l'.peer got' full,
            )
        | inr h ↦
            let ne = ==-ne m (2 ^ t - 1) h in
            inr
              (ne, begin ∙ finish_piece-more l' piece_idx (length piece) known few got'.1 ne, got')
      ],
    )

-- No block of a piece of more than 30 blocks can be taken in, whatever it holds: the shift that makes
-- the mask of all its blocks is undefined, or the block faults before that.
pub store_block-too_large :
    (l : Link) (piece_idx offset size : ℕ) (bytes : List ℕ)
    → piece_size l.torrent (piece_idx == u32 (u32 l.torrent.pieces_count + 2 ^ 32 - 1)) ≡ ok size
    → 30 * block_size < size
    → size + block_size ≤ 2 ^ 32
    → store_block l piece_idx offset bytes ≡ fault
unfolding store_block finish_piece
store_block-too_large l piece_idx offset size bytes known large small =
    let blocks : ltb (u32 (size + block_size - 1) / block_size) 31 ≡ false =
      le→ltb _ _ (omega arith) in
    elim (Bool-cases (leb (offset + length bytes) (length l.peer.piece_buf))) [
      | inl fits ↦ elim (Bool-cases (ltb (offset / block_size) 31)) [
        | inl low ↦ rw (fits, low, known, blocks) refl
        | inr high ↦ rw (fits, high) refl
      ]
      | inr out ↦ rw out refl
    ]
