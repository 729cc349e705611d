-- ===== src/Swarm/Proper.antt =====
-- What the pool of addresses keeps under `parse_peers` of announcer/announcer.c.
use bite_bit_bitten.Common.{
  ℕ, ◌/◌, ◌^◌, ◌≤◌, ◌<◌, ◌≡◌, refl, sym, ◌∙◌, subst, ◌≢◌, inl, inr, true, false, ◌&&◌, List, [],
  ◌∷◌, ◌++◌, arith, leb, ◌==◌, ==_iff, Bool-cases, length,
}
use bite_bit_bitten.Common.Outcome.{ok, ok-injective}
use bite_bit_bitten.Swarm.{TrSwarm}
use bite_bit_bitten.Swarm.Pool.{known, parse_peers}
use bite_bit_bitten.Swarm.Known.{
  pool_addresses, WellFormed, has_address, add_address, add_addresses, compact,
}
use bite_bit_bitten.Swarm.Merge.{parse_peers_lem}

-- Addresses with a port, each of them once, and at most 200.
abbrev pub Proper : List (ℕ × ℕ) → Type 0
Proper [] = Unit
Proper (a ∷ rest) = (a.1 ≢ 0) × (has_address a.0 a.1 rest ≡ false) × Proper rest

has_address-end :
    (known : List (ℕ × ℕ)) (a b : ℕ × ℕ)
    → has_address a.0 a.1 known ≡ false
    → (b.0 == a.0 && b.1 == a.1) ≡ false
    → has_address a.0 a.1 (known ++ b ∷ []) ≡ false
has_address-end [] a b h other = rw other refl
has_address-end (x ∷ known) a b h other = elim (Bool-cases (x.0 == a.0 && x.1 == a.1)) [
  | inl same ↦ let wrong : true ≡ false = rw same at h in cc
  | inr apart ↦ rw apart (has_address-end known a b (rw apart at h) other)
]

Proper-end :
    (known : List (ℕ × ℕ)) (ip port : ℕ)
    → Proper known
    → port ≢ 0
    → has_address ip port known ≡ false
    → Proper (known ++ (ip, port) ∷ [])
Proper-end [] ip port h has_port new = (has_port, refl, tt)
Proper-end (x ∷ known) ip port h has_port new = elim (Bool-cases (x.0 == ip && x.1 == port)) [
  | inl same ↦ let wrong : true ≡ false = rw same at new in cc
  | inr apart ↦
      let flipped : (ip == x.0 && port == x.1) ≡ false = ground (arith, apart) in
      (
        h.0,
        has_address-end known x (ip, port) h.1 flipped,
        Proper-end known ip port h.2 has_port (rw apart at new),
      )
]

add_address-Proper :
    (known : List (ℕ × ℕ)) (a : ℕ × ℕ) → Proper known → Proper (add_address known a)
add_address-Proper known (ip, port) h = elim (Bool-cases (leb 200 (length known))) [
  | inl full ↦ rw full h
  | inr room ↦ elim (Bool-cases (port == 0)) [
    | inl no_port ↦ rw (room, no_port) h
    | inr has_port ↦ elim (Bool-cases (has_address ip port known)) [
      | inl old ↦ rw (room, has_port, old) h
      | inr new ↦
          let proper_port : port ≢ 0 = λ e. let zero_port = (==_iff port 0).1 e in cc in
          rw (room, has_port, new) (Proper-end known ip port h proper_port new)
    ]
  ]
]

add_addresses-Proper :
    (more known : List (ℕ × ℕ)) → Proper known → Proper (add_addresses known more)
add_addresses-Proper [] known h = h
add_addresses-Proper (a ∷ more) known h =
    add_addresses-Proper more (add_address known a) (add_address-Proper known a h)

-- `parse_peers` keeps the pool proper: when it ends on a well-formed swarm whose addresses have ports
-- and stand there once, the same holds of the swarm after it, whatever the bytes are.
pub parse_peers-Proper :
    (bytes : List ℕ) (peers_length : ℕ) (swarm after : TrSwarm)
    → WellFormed swarm
    → Proper (pool_addresses swarm)
    → peers_length ≤ length bytes
    → peers_length < 2 ^ 31
    → parse_peers bytes peers_length swarm ≡ ok after
    → WellFormed after × Proper (pool_addresses after)
parse_peers-Proper bytes peers_length swarm after h proper held small result =
    let merged = parse_peers_lem bytes peers_length swarm h held small in
    let same : merged.0 ≡ after = ok-injective (sym merged.1 ∙ result) in
    let known =
      add_addresses-Proper (compact (peers_length / 6) bytes) (pool_addresses swarm) proper in
    (
      subst WellFormed same merged.3,
      subst (λ s. Proper (pool_addresses s)) same (rw merged.2 known),
    )
