-- ===== src/Peer/Bitfield.antt =====
-- The bitfields of announcer/announcer.c: piece 0 is the highest bit of the first byte.
use bite_bit_bitten.Common.{
  ℕ, ◌-◌, ◌/◌, ◌%◌, bit_and, bit_or, Bool, not, List, ◌==◌, get_elem?, set, u8, ◌<<<◌,
}
use bite_bit_bitten.Common.Outcome.{of_option, Outcome, ok, ◌>>=◌}
use bite_bit_bitten.Peer.{TrPeer}

abbrev pub bit_of : ℕ → ℕ
bit_of i = 1 <<< (7 - i % 8)

-- `bitfield[i / 8] & (1 << (7 - i % 8))`
unfoldable pub has_piece : List ℕ → ℕ → Outcome Bool
has_piece bitfield i =
    of_option (get_elem? bitfield (i / 8)) >>= λ b. ok (not (bit_and b (bit_of i) == 0))

-- `bitfield[i / 8] |= (1 << (7 - i % 8))`
unfoldable pub set_piece : List ℕ → ℕ → Outcome (List ℕ)
set_piece bitfield i = of_option (get_elem? bitfield (i / 8)) >>= λ b.
    ok (set bitfield (i / 8) (u8 (bit_or b (bit_of i))))

unfoldable pub peer_set_piece : TrPeer → ℕ → Outcome TrPeer
unfolding set_piece
peer_set_piece peer piece_idx =
    set_piece peer.bitfield piece_idx >>= λ bits. ok (record peer { bitfield = bits })
