-- ===== src/Pool/Tests.antt =====
-- The pool of threads/pool_thread.c with numbers for tasks.
use bite_bit_bitten.Common.{
  ℕ, zero, suc, ◌+◌, ◌%◌, ◌<◌, ◌≡◌, refl, sym, ◌∙◌, false, some, List, [], ◌∷◌, arith, get_elem?,
  replicate,
}
use bite_bit_bitten.Pool.{Pool, waits, runs, threadpool_init}
use bite_bit_bitten.Pool.Fifo.{Event, pushed, turn, Holds, run_pool, run_pool-run_queue}

abbrev script : List (Event ℕ)
script = turn ∷ pushed 7 ∷ pushed 8 ∷ turn ∷ pushed 9 ∷ turn ∷ turn ∷ turn ∷ []

run_pool-run_queue_example :
    run_pool script (threadpool_init (replicate 64 0))
    ≡ waits ∷ runs 7 ∷ runs 8 ∷ runs 9 ∷ waits ∷ []
run_pool-run_queue_example =
    run_pool-run_queue (replicate 64 0) script refl (omega arith, (omega arith, (omega arith, tt)))

-- 64 tasks that wait, from the second place of the ring on
abbrev full : Pool ℕ
full = record { queue = replicate 64 1; head = 1; tail = 1; count = 64; stop = false }

get_elem?-replicate : (n i v : ℕ) → i < n → get_elem? (replicate n v) i ≡ some v
get_elem?-replicate zero i v h = absurd (omega arith)
get_elem?-replicate (suc n) zero v h = refl
get_elem?-replicate (suc n) (suc i) v h = get_elem?-replicate n i v (omega arith)

full-Holds : Holds full (replicate 64 1)
full-Holds = (
  refl,
  omega arith,
  refl,
  refl,
  refl,
  λ i h. get_elem?-replicate 64 ((1 + i) % 64) 1 (omega arith) ∙ sym (get_elem?-replicate 64 i 1 h),
)
