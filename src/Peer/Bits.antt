-- ===== src/Peer/Bits.antt =====
-- Marking a piece in a bitfield marks that piece and no other.
use bite_bit_bitten.Common.{
  ℕ, zero, suc, ◌+◌, ◌-◌, ◌*◌, ◌/◌, ◌%◌, ◌<◌, bit_and, bit_or, ◌≡◌, refl, sym, ap, ◌∙◌, ◌≢◌, inl,
  inr, Bool, true, false, ◌||◌, not, some, List, [], ◌∷◌, arith, ltb, ◌==◌, if◌then◌else◌, ltb→lt,
  ==_iff, Bool-cases, length, get_elem?, get_or, set, All, length-set, get_elem?-set_self,
  get_elem?-set_ne, get_elem?-eq-get_or, u8, ◌<<<◌,
}
use bite_bit_bitten.Common.Outcome.{ok}
use bite_bit_bitten.Common.Bits.{all_below_sound}
use bite_bit_bitten.Peer.Bitfield.{bit_of, has_piece, set_piece}

abbrev agree : Bool → Bool → Bool
agree true b = b
agree false b = not b

agree-eq : (a b : Bool) → agree a b ≡ true → a ≡ b
agree-eq true b h = sym h
agree-eq false true h = h
agree-eq false false h = refl

abbrev test_bit : ℕ → ℕ → Bool
test_bit b q = not (bit_and b (1 <<< (7 - q)) == 0)

-- whether setting bit `p` of a byte reads back as bit `p` and the others, for `n = 64 b + 8 p + q`
abbrev set_bit_reads : ℕ → ℕ → ℕ → Bool
set_bit_reads b p q = agree (test_bit (bit_or b (1 <<< (7 - p))) q) (q == p || test_bit b q)

test_bit-set :
    (b p q : ℕ)
    → b < 256
    → p < 8
    → q < 8
    → test_bit (bit_or b (1 <<< (7 - p))) q ≡ (q == p || test_bit b q)
test_bit-set b p q hb hp hq =
    let n = b * 64 + p * 8 + q in
    let eb : n / 64 ≡ b = omega arith in
    let ep : n / 8 % 8 ≡ p = omega arith in
    let eq : n % 8 ≡ q = omega arith in
    let h =
      all_below_sound (256 * 64) (λ n. set_bit_reads (n / 64) (n / 8 % 8) (n % 8)) n refl
        (omega arith) in
    agree-eq _ _ (rw (eb, ep, eq) at h)

set_bit-IsByte : (b p : ℕ) → b < 256 → p < 8 → bit_or b (1 <<< (7 - p)) < 256
set_bit-IsByte b p hb hp =
    let n = b * 8 + p in
    let eb : n / 8 ≡ b = omega arith in
    let ep : n % 8 ≡ p = omega arith in
    let h =
      all_below_sound (256 * 8) (λ n. ltb (bit_or (n / 8) (1 <<< (7 - n % 8))) 256) n refl
        (omega arith) in
    ltb→lt _ _ (rw (eb, ep) at h)

abbrev pub IsByte : ℕ → Type 0
IsByte b = b < 256

byte_of : (bits : List ℕ) (k : ℕ) → All IsByte bits → k < length bits → get_or bits k 0 < 256
byte_of [] k bytes h = absurd (omega arith)
byte_of (b ∷ bits) zero bytes h = bytes.0
byte_of (b ∷ bits) (suc k) bytes h = byte_of bits k bytes.1 (omega arith)

set-All : (bits : List ℕ) (k v : ℕ) → All IsByte bits → v < 256 → All IsByte (set bits k v)
set-All [] k v bytes h = tt
set-All (b ∷ bits) zero v bytes h = (h, bytes.1)
set-All (b ∷ bits) (suc k) v bytes h = (bytes.0, set-All bits k v bytes.1 h)

has_piece-byte :
    (bits : List ℕ) (j b : ℕ)
    → get_elem? bits (j / 8) ≡ some b
    → has_piece bits j ≡ ok (test_bit b (j % 8))
unfolding has_piece
has_piece-byte bits j b h = rw h refl

pub ==-false : (a b : ℕ) → a ≢ b → (a == b) ≡ false
==-false a b h = elim (Bool-cases (a == b)) [
  | inl yes_eq ↦ absurd (h ((==_iff a b).0 yes_eq))
  | inr no_eq ↦ no_eq
]

pub ==-ne : (a b : ℕ) → (a == b) ≡ false → a ≢ b
==-ne a b h e = let yes_eq = (==_iff a b).1 e in cc

has_piece-set_same :
    (bits : List ℕ) (i j : ℕ)
    → All IsByte bits
    → i / 8 < length bits
    → j / 8 ≡ i / 8
    → has_piece (set bits (i / 8) (bit_or (get_or bits (i / 8) 0) (bit_of i))) j
      ≡ (if j == i then ok true else has_piece bits j)
has_piece-set_same bits i j bytes room e =
    let b = get_or bits (i / 8) 0 in
    let v = bit_or b (bit_of i) in
    let before =
      has_piece-byte bits j b (ap (get_elem? bits) e ∙ get_elem?-eq-get_or bits (i / 8) 0 room) in
    let after =
      has_piece-byte (set bits (i / 8) v) j v
        (ap (get_elem? (set bits (i / 8) v)) e ∙ get_elem?-set_self bits (i / 8) v room) in
    let bit =
      test_bit-set b (i % 8) (j % 8) (byte_of bits (i / 8) bytes room) (omega arith)
        (omega arith) in
    elim (Bool-cases (j == i)) [
      | inl h ↦
          let same : j % 8 ≡ i % 8 = ap (λ t. t % 8) ((==_iff j i).0 h) in
          rw (after, h, bit, (==_iff (j % 8) (i % 8)).1 same) refl
      | inr h ↦
          let other : j % 8 ≢ i % 8 = λ s. ==-ne j i h (omega arith) in
          rw (after, before, h, bit, ==-false (j % 8) (i % 8) other) refl
    ]

has_piece-set :
    (bits : List ℕ) (i j : ℕ)
    → All IsByte bits
    → i / 8 < length bits
    → has_piece (set bits (i / 8) (bit_or (get_or bits (i / 8) 0) (bit_of i))) j
      ≡ (if j == i then ok true else has_piece bits j)
unfolding has_piece
has_piece-set bits i j bytes room = elim (Bool-cases (j / 8 == i / 8)) [
  | inl h ↦ has_piece-set_same bits i j bytes room ((==_iff (j / 8) (i / 8)).0 h)
  | inr h ↦
      let apart : i / 8 ≢ j / 8 = λ e. ==-ne (j / 8) (i / 8) h (sym e) in
      let other : j ≢ i = λ e. apart (ap (λ t. t / 8) (sym e)) in
      rw
        (
          get_elem?-set_ne bits (i / 8) (j / 8) (bit_or (get_or bits (i / 8) 0) (bit_of i)) apart,
          ==-false j i other,
        )
        refl
]

-- In a bitfield that has a byte for the piece, marking it succeeds, the result is as long and made
-- of bytes, and it has that piece and beside it just what the bitfield had.
pub set_piece_lem :
    (bits : List ℕ) (i : ℕ)
    → All IsByte bits
    → i / 8 < length bits
    → (bits' : List ℕ) × (set_piece bits i ≡ ok bits')
      × All IsByte bits'
      × (length bits' ≡ length bits)
      × ((j : ℕ) → has_piece bits' j ≡ (if j == i then ok true else has_piece bits j))
unfolding set_piece has_piece
set_piece_lem bits i bytes room =
    let b = get_or bits (i / 8) 0 in
    let small = byte_of bits (i / 8) bytes room in
    let byte = set_bit-IsByte b (i % 8) small (omega arith) in
    let stored : u8 (bit_or b (bit_of i)) ≡ bit_or b (bit_of i) = omega arith in
    let found = get_elem?-eq-get_or bits (i / 8) 0 room in
    (
      set bits (i / 8) (bit_or b (bit_of i)),
      rw found (ap (λ t. ok (set bits (i / 8) t)) stored),
      set-All bits (i / 8) (bit_or b (bit_of i)) bytes byte,
      length-set bits (i / 8) (bit_or b (bit_of i)),
      λ j. has_piece-set bits i j bytes room,
    )
