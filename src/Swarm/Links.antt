-- ===== src/Swarm/Links.antt =====
-- `peers` of `TR_swarm`, the array of the connected peers, when one of them leaves it.
use bite_bit_bitten.Common.{
  ℕ, zero, suc, ◌+◌, ◌-◌, ◌≤◌, ◌<◌, ◌≡◌, refl, sym, ap, ◌∙◌, subst, ◌≢◌, inl, inr, true, none, some,
  List, [], ◌∷◌, arith, ◌==◌, ==_iff, Bool-cases, length, get_elem?, get_or, set, take,
  get_elem?-set_self, get_elem?-set_ne, get_elem?-eq-get_or, All-get_elem?,
}
use native.Mathlib.Decide.{dec_lt}
use bite_bit_bitten.Swarm.{TrSwarm}
use bite_bit_bitten.Swarm.Known.{Distinct}
use bite_bit_bitten.Swarm.Handshake.{find_peer, remove_peer}

-- The pointer stands among the first `peers_count`.
abbrev pub IsLinked : TrSwarm → ℕ → Type 0
IsLinked swarm address =
    (j : ℕ) × (j < swarm.peers_count) × (get_elem? swarm.peers j ≡ some address)

get_elem?-take : (xs : List ℕ) (n i : ℕ) → i < n → get_elem? (take n xs) i ≡ get_elem? xs i
get_elem?-take xs zero i h = absurd (omega arith)
get_elem?-take [] (suc n) i h = refl
get_elem?-take (x ∷ xs) (suc n) zero h = refl
get_elem?-take (x ∷ xs) (suc n) (suc i) h = get_elem?-take xs n i (omega arith)

Distinct-places :
    (xs : List ℕ) (i j x : ℕ)
    → Distinct xs
    → get_elem? xs i ≡ some x
    → get_elem? xs j ≡ some x
    → i ≡ j
Distinct-places [] i j x d a b = cc
Distinct-places (y ∷ xs) zero zero x d a b = refl
Distinct-places (y ∷ xs) zero (suc j) x d a b =
    let same : y ≡ x = cc in absurd (All-get_elem? (λ q. q ≢ y) xs j x d.0 b (sym same))
Distinct-places (y ∷ xs) (suc i) zero x d a b =
    let same : y ≡ x = cc in absurd (All-get_elem? (λ q. q ≢ y) xs i x d.0 a (sym same))
Distinct-places (y ∷ xs) (suc i) (suc j) x d a b = ap suc (Distinct-places xs i j x d.1 a b)

find_peer_lem :
    (k address : ℕ) (xs : List ℕ) (i : ℕ)
    → Distinct xs
    → get_elem? xs i ≡ some address
    → find_peer k address xs ≡ some (k + i)
find_peer_lem k address [] i d h = cc
find_peer_lem k address (x ∷ xs) zero d h =
    let same : (x == address) ≡ true = (==_iff x address).1 cc in rw same (ap some (omega arith))
find_peer_lem k address (x ∷ xs) (suc i) d h = elim (Bool-cases (x == address)) [
  | inl same ↦
      absurd (All-get_elem? (λ q. q ≢ x) xs i address d.0 h (sym ((==_iff x address).0 same)))
  | inr other ↦ rw other (find_peer_lem (k + 1) address xs i d.1 h ∙ ap some (omega arith))
]

module _ (swarm : TrSwarm) (address i : ℕ) (fits : swarm.peers_count ≤ length swarm.peers)
    (apart : Distinct (take swarm.peers_count swarm.peers)) (inside : i < swarm.peers_count)
    (at_i : get_elem? swarm.peers i ≡ some address) where
  abbrev pub last : ℕ
  last = get_or swarm.peers (swarm.peers_count - 1) 0

  -- the array after a peer has gone
  abbrev pub without : TrSwarm
  without = record swarm { peers = set swarm.peers i last; peers_count = swarm.peers_count - 1 }

  pub remove_peer_lem : remove_peer address swarm ≡ without
  unfolding remove_peer
  remove_peer_lem =
      let found =
        find_peer_lem 0 address (take swarm.peers_count swarm.peers) i apart
          (get_elem?-take swarm.peers swarm.peers_count i inside ∙ at_i) in
      let place : 0 + i ≡ i = omega arith in
      ap
        (λ o. elim o [
          | none ↦ swarm
          | some k ↦ record swarm {
            peers = set swarm.peers k last;
            peers_count = swarm.peers_count - 1;
          }
        ])
        (found ∙ ap some place)

  pub one_place :
      (j k x : ℕ)
      → j < swarm.peers_count
      → k < swarm.peers_count
      → get_elem? swarm.peers j ≡ some x
      → get_elem? swarm.peers k ≡ some x
      → j ≡ k
  one_place j k x hj hk a b =
      Distinct-places (take swarm.peers_count swarm.peers) j k x apart
        (get_elem?-take swarm.peers swarm.peers_count j hj ∙ a)
        (get_elem?-take swarm.peers swarm.peers_count k hk ∙ b)

  pub last_there : get_elem? swarm.peers (swarm.peers_count - 1) ≡ some last
  last_there = get_elem?-eq-get_or swarm.peers (swarm.peers_count - 1) 0 (omega arith)

  pub moved_there : get_elem? (set swarm.peers i last) i ≡ some last
  moved_there = get_elem?-set_self swarm.peers i last (omega arith)

  pub others_stay : (a : ℕ) → IsLinked without a → IsLinked swarm a × (a ≢ address)
  others_stay a (j, below, at_j) = elim (Bool-cases (j == i)) [
    | inl same ↦
        let here = (==_iff j i).0 same in
        let e : last ≡ a =
          let t =
            sym moved_there
            ∙ subst (λ k. get_elem? (set swarm.peers i last) k ≡ some a) here at_j in
          cc in
        (
          (swarm.peers_count - 1, omega arith, last_there ∙ ap some e),
          λ gone. absurd (
              omega (
                arith,
                one_place (swarm.peers_count - 1) i address (omega arith) inside
                    (last_there ∙ ap some (e ∙ gone)) at_i,
                here,
                below,
              )),
        )
    | inr other ↦
        let differ : i ≢ j = λ e. let t = (==_iff j i).1 (sym e) in cc in
        let old = sym (get_elem?-set_ne swarm.peers i j last differ) ∙ at_j in
        (
          (j, omega arith, old),
          λ gone.
              differ (sym (one_place j i address (omega arith) inside (old ∙ ap some gone) at_i)),
        )
  ]

  same_peer : (j a : ℕ) → i ≡ j → get_elem? swarm.peers j ≡ some a → a ≡ address
  same_peer j a e at_j =
      let t = sym at_j ∙ subst (λ n. get_elem? swarm.peers n ≡ some address) e at_i in cc

  not_last : (k : ℕ) → k ≢ swarm.peers_count - 1 → k < swarm.peers_count → k < swarm.peers_count - 1
  not_last k differ below = elim (dec_lt k (swarm.peers_count - 1)) [
    | yes early ↦ early
    | no late ↦ absurd (differ (omega arith))
  ]

  pub stay-IsLinked : (a : ℕ) → IsLinked swarm a → a ≢ address → IsLinked without a
  stay-IsLinked a (j, below, at_j) other = elim (Bool-cases (j == swarm.peers_count - 1)) [
    | inl same ↦
        let end = (==_iff j (swarm.peers_count - 1)).0 same in
        let e : last ≡ a =
          let t = sym last_there ∙ subst (λ k. get_elem? swarm.peers k ≡ some a) end at_j in cc in
        let differ : i ≢ j = λ same_place. other (same_peer j a same_place at_j) in
        let early : i < swarm.peers_count - 1 = not_last i (λ e. differ (e ∙ sym end)) inside in
        (i, early, moved_there ∙ ap some e)
    | inr before ↦
        let differ : i ≢ j = λ same_place. other (same_peer j a same_place at_j) in
        (j, ground (arith, below, before), get_elem?-set_ne swarm.peers i j last differ ∙ at_j)
  ]
