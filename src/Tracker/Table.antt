-- ===== src/Tracker/Table.antt =====
-- The loop of `ANN_announcer_tick` in announcer/announcer.c that takes the requests of a tracker out
-- of the table.
use bite_bit_bitten.Common.{
  ℕ, zero, suc, ◌+◌, ◌-◌, ◌≤◌, ◌<◌, ◌≡◌, refl, sym, ◌∙◌, subst, inl, inr, true, false, ◌&&◌, some,
  List, arith, ltb, ◌==◌, ltb→lt, ltb→ge, le→ltb, ==_iff, Bool-cases, length, get_elem?, set,
  length-set, get_elem?-set_ne, get_elem?-set_self, lt_of_get_elem?, ap, present,
}
use bite_bit_bitten.Common.Outcome.{ok}
use bite_bit_bitten.Tracker.{UdpRequest}
use bite_bit_bitten.Tracker.Tick.{drop_requests}

-- The request at a place of the table is not to this tracker.
abbrev pub NotTo : ℕ → ℕ → List UdpRequest → ℕ → Type 0
NotTo t k requests j =
    (request : UdpRequest) × (get_elem? requests j ≡ some request)
    × ((request.torrent == t && request.tracker == k) ≡ false)

-- From `i` on, each request that is not to this tracker still has a place.
abbrev pub Kept : ℕ → ℕ → List UdpRequest → ℕ → List UdpRequest → ℕ → ℕ → Type 0
Kept t k requests count left n i =
    (j : ℕ) (request : UdpRequest)
    → i ≤ j
    → j < count
    → get_elem? requests j ≡ some request
    → (request.torrent == t && request.tracker == k) ≡ false
    → (j' : ℕ) × (j' < n) × (get_elem? left j' ≡ some request)

-- what the loop comes to from `i` on
abbrev pub Drops : ℕ → ℕ → ℕ → List UdpRequest → ℕ → ℕ → Type 0
Drops t k fuel requests count i =
    (left : List UdpRequest) × (n : ℕ) × (drop_requests t k fuel requests count i ≡ ok (left, n))
    × (n ≤ count)
    × (length left ≡ length requests)
    × ((j : ℕ) → j < i → get_elem? left j ≡ get_elem? requests j)
    × ((j : ℕ) → i ≤ j → j < n → NotTo t k left j)
    × (i ≤ count → i ≤ n)
    × Kept t k requests count left n i

Drops-none :
    (t k fuel : ℕ) (requests : List UdpRequest) (count i : ℕ)
    → ltb i count ≡ false
    → Drops t k fuel requests count i
unfolding drop_requests
Drops-none t k zero requests count i ended =
    let past = ltb→ge i count ended in
    (
      requests,
      count,
      rw ended refl,
      omega arith,
      refl,
      λ j b. refl,
      λ j a b. absurd (omega arith),
      λ h. h,
      λ j r from below at_j other. (j, below, at_j),
    )
Drops-none t k (suc fuel) requests count i ended =
    let past = ltb→ge i count ended in
    (
      requests,
      count,
      rw ended refl,
      omega arith,
      refl,
      λ j b. refl,
      λ j a b. absurd (omega arith),
      λ h. h,
      λ j r from below at_j other. (j, below, at_j),
    )

module _ (t k fuel : ℕ) (requests : List UdpRequest) (count i : ℕ) (request : UdpRequest)
    (more : ltb i count ≡ true) (at_i : get_elem? requests i ≡ some request) where
  Drops-next :
      (request.torrent == t && request.tracker == k) ≡ false
      → Drops t k fuel requests count (i + 1)
      → Drops t k (suc fuel) requests count i
  unfolding drop_requests
  Drops-next other rest = (
    rest.0,
    rest.1,
    rw (more, at_i, other) rest.2,
    rest.3,
    rest.4,
    λ j below. rest.5 j (omega arith),
    λ j from below. elim (Bool-cases (j == i)) [
      | inl same ↦
          subst (NotTo t k rest.0) (sym ((==_iff j i).0 same))
            (request, rest.5 i (omega arith) ∙ at_i, other)
      | inr later ↦ rest.6 j (ground (arith, from, later)) below
    ],
    λ h. omega (arith, rest.7 (omega (arith, ltb→lt i count more))),
    λ j r from below at_j not_to. elim (Bool-cases (j == i)) [
      | inl same ↦
          let place = (==_iff j i).0 same in
          (
            i,
            omega (arith, rest.7 (omega (arith, ltb→lt i count more))),
            rest.5 i (omega arith) ∙ subst (λ p. get_elem? requests p ≡ some r) place at_j,
          )
      | inr later ↦ rest.8 j r (ground (arith, from, later)) below at_j not_to
    ],
  )

  Drops-again :
      (end : UdpRequest)
      → (request.torrent == t && request.tracker == k) ≡ true
      → get_elem? requests (count - 1) ≡ some end
      → Drops t k fuel (set requests i end) (count - 1) i
      → Drops t k (suc fuel) requests count i
  unfolding drop_requests
  Drops-again end same at_end rest = (
    rest.0,
    rest.1,
    rw (more, at_i, same, at_end) rest.2,
    omega (arith, rest.3),
    rest.4 ∙ length-set requests i end,
    λ j below. rest.5 j below ∙ get_elem?-set_ne requests i j end (λ e. omega arith),
    rest.6,
    λ h. rest.7 (omega (arith, ltb→lt i count more)),
    λ j r from below at_j not_to. elim (Bool-cases (j == i)) [
      | inl same_place ↦
          let place = (==_iff j i).0 same_place in
          let is_same : request ≡ r =
            let here = sym at_i ∙ subst (λ p. get_elem? requests p ≡ some r) place at_j in cc in
          let wrong : true ≡ false =
            sym same ∙ ap (λ q. q.torrent == t && q.tracker == k) is_same ∙ not_to in
          cc
      | inr other ↦ elim (Bool-cases (j == count - 1)) [
        | inl last ↦
            let place = (==_iff j (count - 1)).0 last in
            let is_end : end ≡ r =
              let here = sym at_end ∙ subst (λ p. get_elem? requests p ≡ some r) place at_j in cc in
            let before : i < count - 1 = ground (arith, other, place, from) in
            let inside : i < length requests = lt_of_get_elem? requests i request at_i in
            rest.8 i r (omega arith) before
              (get_elem?-set_self requests i end inside ∙ ap some is_end) not_to
        | inr middle ↦
            rest.8 j r from (ground (arith, below, middle))
              (get_elem?-set_ne requests i j end (λ e. let t = (==_iff j i).1 (sym e) in cc) ∙ at_j)
              not_to
      ]
    ],
  )

-- With the table in its bounds the loop ends, no request to the tracker is left, and every other is.
pub drop_requests_lem :
    (t k fuel : ℕ) (requests : List UdpRequest) (count i : ℕ)
    → count ≤ length requests
    → count ≤ i + fuel
    → Drops t k fuel requests count i
drop_requests_lem t k zero requests count i bound enough =
    Drops-none t k zero requests count i (le→ltb i count (omega arith))
drop_requests_lem t k (suc fuel) requests count i bound enough = elim (Bool-cases (ltb i count)) [
  | inr ended ↦ Drops-none t k (suc fuel) requests count i ended
  | inl more ↦
      let inside = ltb→lt i count more in
      let (request, at_i) = present requests i (omega arith) in
      let (end, at_end) = present requests (count - 1) (omega arith) in
      elim (Bool-cases (request.torrent == t && request.tracker == k)) [
        | inl same ↦ Drops-again t k fuel requests count i request more at_i end same at_end (
            drop_requests_lem t k fuel (set requests i end) (count - 1) i
              (omega (arith, length-set requests i end)) (omega arith))
        | inr other ↦
            Drops-next t k fuel requests count i request more at_i other
              (drop_requests_lem t k fuel requests count (i + 1) bound (omega arith))
      ]
]
