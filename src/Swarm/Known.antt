-- ===== src/Swarm/Known.antt =====
-- The pool of announcer/announcer.c as a list of addresses, and what it means to merge more of them
-- into it.
use bite_bit_bitten.Common.{
  ℕ, zero, suc, ◌≤◌, ◌<◌, ◌≡◌, refl, sym, ap, ap₂, ◌≢◌, inl, inr, Bool, true, false, ◌&&◌, Option,
  none, some, List, [], ◌∷◌, ◌++◌, leb, ◌==◌, if◌then◌else◌, Bool-cases, Option-cases, length,
  get_elem?, set, take, drop, All, get_elem?-set_ne, slice, le_word, in_range, All-get_elem?,
}
use bite_bit_bitten.Common.Outcome.{ok}
use bite_bit_bitten.Swarm.{TrPeer, TrSwarm}
use bite_bit_bitten.Swarm.Pool.{known}
use bite_bit_bitten.Peer.Message.{word_from}

-- the address in a structure that a pointer leads to
abbrev pub address_of : Option TrPeer → ℕ × ℕ
address_of none = (0, 0)
address_of (some peer) = (peer.ip, peer.port)

abbrev pub addresses : List TrPeer → List ℕ → List (ℕ × ℕ)
addresses store [] = []
addresses store (p ∷ pointers) = address_of (get_elem? store p) ∷ addresses store pointers

-- the addresses that the pool holds
abbrev pub pool_addresses : TrSwarm → List (ℕ × ℕ)
pool_addresses swarm = addresses swarm.store (take swarm.pool_count swarm.peer_pool)

abbrev pub Distinct : List ℕ → Type 0
Distinct [] = Unit
Distinct (p ∷ pointers) = All (λ q. q ≢ p) pointers × Distinct pointers

-- Two hundred pointers to different structures, as `init_TR_swarm` allocates them.
abbrev pub WellFormed : TrSwarm → Type 0
WellFormed swarm =
    (length swarm.peer_pool ≡ 200)
    × (swarm.pool_count ≤ 200)
    × All (λ p. p < length swarm.store) swarm.peer_pool
    × Distinct swarm.peer_pool

abbrev pub has_address : ℕ → ℕ → List (ℕ × ℕ) → Bool
has_address ip port [] = false
has_address ip port (a ∷ rest) = if a.0 == ip && a.1 == port then true else has_address ip port rest

-- An address that is new is added at the end; none without a port, and none beyond 200.
abbrev pub add_address : List (ℕ × ℕ) → ℕ × ℕ → List (ℕ × ℕ)
add_address known (ip, port) =
    if leb 200 (length known)
    then known
    else if port == 0
    then known
    else if has_address ip port known
    then known
    else known ++ (ip, port) ∷ []

abbrev pub add_addresses : List (ℕ × ℕ) → List (ℕ × ℕ) → List (ℕ × ℕ)
add_addresses known [] = known
add_addresses known (a ∷ rest) = add_addresses (add_address known a) rest

-- the addresses of a compact list of peers
abbrev pub compact : ℕ → List ℕ → List (ℕ × ℕ)
compact zero bytes = []
compact (suc n) bytes =
    (le_word (take 4 bytes), word_from 0 (slice bytes 4 2)) ∷ compact n (drop 6 bytes)

pub known_lem :
    (store : List TrPeer) (pointers : List ℕ) (ip port : ℕ)
    → All (λ p. p < length store) pointers
    → known store pointers ip port ≡ ok (has_address ip port (addresses store pointers))
known_lem store [] ip port valid = refl
known_lem store (p ∷ pointers) ip port valid = elim (Option-cases (get_elem? store p)) [
  | inl missing ↦ absurd (in_range store p valid.0 missing)
  | inr (peer, found) ↦
      rw (found, known_lem store pointers ip port valid.1)
        (elim (Bool-cases (peer.ip == ip && peer.port == port)) [
          | inl same ↦ rw same refl
          | inr other ↦ rw other refl
        ])
]

pub addresses-set :
    (store : List TrPeer) (pointers : List ℕ) (q : ℕ) (peer : TrPeer)
    → All (λ p. p ≢ q) pointers
    → addresses (set store q peer) pointers ≡ addresses store pointers
addresses-set store [] q peer apart = refl
addresses-set store (p ∷ pointers) q peer apart =
    ap₂ (λ a b. a ∷ b) (ap address_of (get_elem?-set_ne store q p peer (λ e. apart.0 (sym e))))
      (addresses-set store pointers q peer apart.1)

pub addresses-append :
    (store : List TrPeer) (ps qs : List ℕ)
    → addresses store (ps ++ qs) ≡ addresses store ps ++ addresses store qs
addresses-append store [] qs = refl
addresses-append store (p ∷ ps) qs =
    ap (λ l. address_of (get_elem? store p) ∷ l) (addresses-append store ps qs)

pub length-addresses : (store : List TrPeer) (ps : List ℕ) → length (addresses store ps) ≡ length ps
length-addresses store [] = refl
length-addresses store (p ∷ ps) = ap suc (length-addresses store ps)

pub Distinct-take :
    (pool : List ℕ) (n p : ℕ)
    → Distinct pool
    → get_elem? pool n ≡ some p
    → All (λ q. q ≢ p) (take n pool)
Distinct-take [] n p d e = cc
Distinct-take (q ∷ pool) zero p d e = tt
Distinct-take (q ∷ pool) (suc n) p d e =
    (λ same. All-get_elem? (λ r. r ≢ q) pool n p d.0 e (sym same), Distinct-take pool n p d.1 e)
