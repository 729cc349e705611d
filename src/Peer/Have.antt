-- ===== src/Peer/Have.antt =====
-- A `have` that one side sends is what the other side takes in.
use bite_bit_bitten.Common.{
  ℕ, ◌+◌, ◌/◌, ◌^◌, ◌<◌, ◌≡◌, refl, ap, ◌∙◌, true, false, List, [], ◌∷◌, ◌++◌, arith, ◌==◌,
  if◌then◌else◌, le→leb, length, All,
}
use bite_bit_bitten.Common.Outcome.{ok}
use bite_bit_bitten.Peer.{TrPeer, Link}
use bite_bit_bitten.Peer.Bitfield.{has_piece, set_piece, peer_set_piece}
use bite_bit_bitten.Peer.Bits.{IsByte, set_piece_lem}
use bite_bit_bitten.Peer.Request.{htonl, send_have}
use bite_bit_bitten.Peer.Message.{word_from, recv_number, handle_have, dispatch, handle_message}

pub recv_number-htonl :
    (x : ℕ) (rest : List ℕ) → x < 2 ^ 32 → recv_number 4 (htonl x ++ rest) ≡ ok (x, rest)
recv_number-htonl x rest small =
    let number : word_from 0 (htonl x) ≡ x = omega arith in
    rw (le→leb 4 (length (htonl x ++ rest)) (omega arith)) (ap (λ t. ok (t, rest)) number)

recv_number-byte : (b : ℕ) (rest : List ℕ) → recv_number 1 (b ∷ rest) ≡ ok (b, rest)
recv_number-byte b rest =
    let number : 0 + b ≡ b = omega arith in
    rw (le→leb 1 (length (b ∷ rest)) (omega arith)) (ap (λ t. ok (t, rest)) number)

pub handle_message-dispatch :
    (l : Link) (len id : ℕ) (rest : List ℕ)
    → 0 < len
    → len < 2 ^ 32
    → l.input ≡ htonl len ++ id ∷ rest
    → handle_message l ≡ dispatch (record l { input = rest }) len id
unfolding handle_message
handle_message-dispatch l len id rest some_len small input =
    let nonzero : (len == 0) ≡ false = ground arith in
    rw (input, recv_number-htonl len (id ∷ rest) small, nonzero, recv_number-byte id rest) refl

dispatch-have :
    (l : Link) (len piece_idx : ℕ) (rest bits : List ℕ)
    → piece_idx < 2 ^ 32
    → l.input ≡ htonl piece_idx ++ rest
    → set_piece l.peer.bitfield piece_idx ≡ ok bits
    → dispatch l len 4 ≡ ok (record l { peer = record l.peer { bitfield = bits }; input = rest })
unfolding dispatch handle_have peer_set_piece
dispatch-have l len piece_idx rest bits small input marked =
    rw (input, recv_number-htonl piece_idx rest small, marked) refl

-- When a side whose output is empty sends `have` for a piece that the bitfield of the receiver has a
-- byte for, the receiver reads exactly that message: the piece is marked, no other piece changes,
-- and the input goes on after it.
pub handle_message-send_have :
    (sender : TrPeer) (l : Link) (piece_idx : ℕ) (rest : List ℕ)
    → piece_idx < 2 ^ 32
    → sender.sent ≡ []
    → l.input ≡ (send_have sender piece_idx).sent ++ rest
    → All IsByte l.peer.bitfield
    → piece_idx / 8 < length l.peer.bitfield
    → (bits : List ℕ) × (handle_message l
        ≡ ok (record l { peer = record l.peer { bitfield = bits }; input = rest }))
      × ((j : ℕ)
          → has_piece bits j ≡ (if j == piece_idx then ok true else has_piece l.peer.bitfield j))
unfolding send_have
handle_message-send_have sender l piece_idx rest small fresh arrives bytes room =
    let marked = set_piece_lem l.peer.bitfield piece_idx bytes room in
    let input : l.input ≡ htonl 5 ++ 4 ∷ (htonl piece_idx ++ rest) =
      arrives ∙ ap (λ s. (s ++ (htonl 5 ++ 4 ∷ htonl piece_idx)) ++ rest) fresh in
    (
      marked.0,
      handle_message-dispatch l 5 4 (htonl piece_idx ++ rest) (omega arith) (omega arith) input
          ∙ dispatch-have (record l { input = htonl piece_idx ++ rest }) 5 piece_idx rest marked.0
              small refl marked.1,
      marked.4,
    )
