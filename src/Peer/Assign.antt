-- ===== src/Peer/Assign.antt =====
-- `assign_piece_to_peer` of announcer/announcer.c picks the first piece that is wanted.
use bite_bit_bitten.Common.{
  ℕ, zero, suc, ◌+◌, ◌-◌, ◌*◌, ◌/◌, ◌%◌, ◌^◌, ◌≤◌, ◌<◌, bit_and, ◌≡◌, refl, ap, ◌∙◌, subst, ◌⊎◌,
  inl, inr, Bool, true, false, not, List, arith, ◌==◌, if◌then◌else◌, Bool-cases, length, get_or,
  All, get_elem?-eq-get_or, u32, u64, ◌<<<◌, pos,
}
use bite_bit_bitten.Common.Outcome.{Outcome, ok}
use native.Mathlib.Decide.{dec_lt}
use bite_bit_bitten.Peer.{TrPeer, TrTorrent}
use bite_bit_bitten.Peer.Bitfield.{has_piece}
use bite_bit_bitten.Peer.Bits.{IsByte, set_piece_lem}
use bite_bit_bitten.Peer.Request.{block_size, send, piece_size, assign_from, assign_piece_to_peer}
use bite_bit_bitten.Peer.Blocks.{Covers, request_messages, request_all_blocks_lem, piece_size_lem}

-- The peer has the piece, and it is neither here nor asked for.
abbrev pub Wanted : TrPeer → TrTorrent → ℕ → Type 0
Wanted peer torrent i =
    (has_piece torrent.bitfield i ≡ ok false)
    × (has_piece torrent.requested_pieces i ≡ ok false)
    × (has_piece peer.bitfield i ≡ ok true)

-- The bitfields have a bit for every piece, and the piece length leaves room for a block.
abbrev pub Ready : TrPeer → TrTorrent → Type 0
Ready peer torrent =
    All IsByte torrent.requested_pieces
    × (torrent.pieces_count ≤ 8 * length torrent.bitfield)
    × (torrent.pieces_count ≤ 8 * length torrent.requested_pieces)
    × (torrent.pieces_count ≤ 8 * length peer.bitfield)
    × (0 < torrent.piece_length)
    × (torrent.piece_length + block_size ≤ 2 ^ 32)

-- The outcome when the search at `start` comes to the piece `i`.
abbrev pub Asked : TrPeer → TrTorrent → ℕ → ℕ → Outcome (TrPeer × TrTorrent) → Type 0
Asked peer torrent start i result =
    Wanted peer torrent i
    × ((j : ℕ) → start ≤ j → j < i → Wanted peer torrent j → ⊥)
    × ((requested : List ℕ) × (blocks : List (ℕ × ℕ)) × (size : ℕ) × (result
          ≡ ok (
            send (record peer { current_piece = pos i; blocks_received = 0 })
                (request_messages i blocks),
            record torrent { requested_pieces = requested },
          ))
        × ((j : ℕ)
            → has_piece requested j
              ≡ (if j == i then ok true else has_piece torrent.requested_pieces j))
        × (piece_size torrent (u32 i == u64 (torrent.pieces_count + 2 ^ 64 - 1)) ≡ ok size)
        × Covers 0 size blocks)

has_piece-ok :
    (bits : List ℕ) (i : ℕ) → i < 8 * length bits → (b : Bool) × (has_piece bits i ≡ ok b)
unfolding has_piece
has_piece-ok bits i room = (
  not (bit_and (get_or bits (i / 8) 0) (1 <<< (7 - i % 8)) == 0),
  rw (get_elem?-eq-get_or bits (i / 8) 0 (omega arith)) refl,
)

true-false : {o : Outcome Bool} → o ≡ ok true → o ≡ ok false → ⊥
true-false p q = cc

Wanted-cases :
    (peer : TrPeer) (torrent : TrTorrent) (i : ℕ)
    → Ready peer torrent
    → i < torrent.pieces_count
    → Wanted peer torrent i
      ⊎ ((Wanted peer torrent i → ⊥)
          × ((n : ℕ) → assign_from (suc n) i peer torrent ≡ assign_from n (i + 1) peer torrent))
unfolding assign_from
Wanted-cases peer torrent i ready inside =
    let ours = has_piece-ok torrent.bitfield i (omega (arith, ready.1)) in
    let asked = has_piece-ok torrent.requested_pieces i (omega (arith, ready.2)) in
    let theirs = has_piece-ok peer.bitfield i (omega (arith, ready.3)) in
    elim (Bool-cases ours.0) [
      | inl o ↦ inr (λ w. true-false (ours.1 ∙ ap ok o) w.0, λ n. rw (ours.1, o) refl)
      | inr o ↦ elim (Bool-cases asked.0) [
        | inl a ↦
            inr (λ w. true-false (asked.1 ∙ ap ok a) w.1, λ n. rw (ours.1, o, asked.1, a) refl)
        | inr a ↦ elim (Bool-cases theirs.0) [
          | inl t ↦ inl (ours.1 ∙ ap ok o, asked.1 ∙ ap ok a, theirs.1 ∙ ap ok t)
          | inr t ↦ inr (
            λ w. true-false w.2 (theirs.1 ∙ ap ok t),
            λ n. rw (ours.1, o, asked.1, a, theirs.1, t) refl,
          )
        ]
      ]
    ]

piece_size-requested :
    (torrent : TrTorrent) (bits : List ℕ) (is_last : Bool)
    → piece_size (record torrent { requested_pieces = bits }) is_last ≡ piece_size torrent is_last
unfolding piece_size
piece_size-requested torrent bits is_last = refl

assign_from-none :
    (i : ℕ) (peer : TrPeer) (torrent : TrTorrent)
    → assign_from 0 i peer torrent ≡ ok (peer, torrent)
unfolding assign_from
assign_from-none i peer torrent = refl

assign_from-Wanted :
    (n i : ℕ) (peer : TrPeer) (torrent : TrTorrent)
    → Ready peer torrent
    → i < torrent.pieces_count
    → Wanted peer torrent i
    → Asked peer torrent i i (assign_from (suc n) i peer torrent)
unfolding assign_from
assign_from-Wanted n i peer torrent ready inside wanted =
    let marked = set_piece_lem torrent.requested_pieces i ready.0 (omega (arith, ready.2)) in
    let is_last = u32 i == u64 (torrent.pieces_count + 2 ^ 64 - 1) in
    let size = piece_size_lem torrent is_last ready.4 (omega (arith, ready.5)) in
    let asking = record peer { current_piece = pos i; blocks_received = 0 } in
    let torrent' = record torrent { requested_pieces = marked.0 } in
    let sent =
      request_all_blocks_lem asking torrent' i size.0
        (piece_size-requested torrent marked.0 is_last ∙ size.1) (omega (arith, ready.5, size.2)) in
    (
      wanted,
      λ j from below. absurd (omega arith),
      (
        marked.0,
        sent.0,
        size.0,
        rw (wanted.0, wanted.1, wanted.2, marked.1, sent.1) refl,
        marked.4,
        size.1,
        sent.2,
      ),
    )

skip_first :
    (peer : TrPeer) (torrent : TrTorrent) (i k : ℕ)
    → (Wanted peer torrent i → ⊥)
    → ((j : ℕ) → i + 1 ≤ j → j < k → Wanted peer torrent j → ⊥)
    → (j : ℕ) → i ≤ j
    → j < k
    → Wanted peer torrent j
    → ⊥
skip_first peer torrent i k not_i rest j from below w = elim (dec_lt i j) [
  | yes later ↦ rest j (omega arith) below w
  | no same ↦ let e : j ≡ i = omega arith in not_i (subst (Wanted peer torrent) e w)
]

assign_from_lem :
    (n i : ℕ) (peer : TrPeer) (torrent : TrTorrent)
    → Ready peer torrent
    → i + n ≡ torrent.pieces_count
    → ((assign_from n i peer torrent ≡ ok (peer, torrent))
        × ((j : ℕ) → i ≤ j → j < torrent.pieces_count → Wanted peer torrent j → ⊥))
      ⊎ ((k : ℕ) × (k < torrent.pieces_count)
          × Asked peer torrent i k (assign_from n i peer torrent))
assign_from_lem zero i peer torrent ready sum =
    inl (assign_from-none i peer torrent, λ j from below. absurd (omega arith))
assign_from_lem (suc n) i peer torrent ready sum =
    elim (Wanted-cases peer torrent i ready (omega arith)) [
      | inl wanted ↦
          inr (i, omega arith, assign_from-Wanted n i peer torrent ready (omega arith) wanted)
      | inr passed ↦ elim (assign_from_lem n (i + 1) peer torrent ready (omega arith)) [
        | inl none_left ↦ inl (
          passed.1 n ∙ none_left.0,
          skip_first peer torrent i torrent.pieces_count passed.0 none_left.1,
        )
        | inr found ↦ inr (
          found.0,
          found.1,
          (
            found.2.0,
            skip_first peer torrent i found.0 passed.0 found.2.1,
            rw (passed.1 n) found.2.2,
          ),
        )
      ]
    ]

-- When every bitfield has a bit for every piece, the piece length is not 0 and a piece with one more
-- block fits 32 bits, `assign_piece_to_peer` returns. Either no piece is wanted (the peer has it, it
-- is neither here nor asked for) and nothing changes, or the first wanted piece becomes the peer's
-- current one, it alone is marked as requested, and the requests sent cover it from 0 to its size.
pub assign_piece_to_peer_lem :
    (peer : TrPeer) (torrent : TrTorrent)
    → Ready peer torrent
    → ((assign_piece_to_peer peer torrent ≡ ok (peer, torrent))
        × ((j : ℕ) → 0 ≤ j → j < torrent.pieces_count → Wanted peer torrent j → ⊥))
      ⊎ ((k : ℕ) × (k < torrent.pieces_count)
          × Asked peer torrent 0 k (assign_piece_to_peer peer torrent))
unfolding assign_piece_to_peer
assign_piece_to_peer_lem peer torrent ready =
    assign_from_lem torrent.pieces_count 0 peer torrent ready (omega arith)
