-- ===== src/Pool/Fifo.antt =====
-- The ring is a first-in first-out queue as long as at most 64 tasks wait.
use bite_bit_bitten.Common.{
  ℕ, zero, suc, ◌+◌, ◌-◌, ◌%◌, ◌<◌, ◌≡◌, refl, sym, ap, ◌∙◌, ◌≢◌, inl, inr, true, false, List, [],
  ◌∷◌, ◌++◌, arith, ◌==◌, Bool-cases, length, get_elem?, set, All, length-append, length-set,
  get_elem?-set_self, get_elem?-set_ne, get_elem?-append_right,
}
use native.Mathlib.Decide.{dec_lt}
use bite_bit_bitten.Pool.{
  Pool, Turn, waits, exits, runs, threadpool_init, threadpool_push, threadpool_destroy, worker,
}

module _ {ℓ} {A : Type ℓ} where
  -- The pool is running and `tasks` wait in it, the oldest first.
  abbrev pub Holds : Pool A → List A → Type ℓ
  Holds pool tasks =
      (length pool.queue ≡ 64)
      × (pool.head < 64)
      × (pool.tail ≡ (pool.head + length tasks) % 64)
      × (pool.count ≡ length tasks)
      × (pool.stop ≡ false)
      × ((i : ℕ)
          → i < length tasks
          → get_elem? pool.queue ((pool.head + i) % 64) ≡ get_elem? tasks i)

  -- On a ring of 64 places the pool starts with nothing in it.
  threadpool_init-Holds : (queue : List A) → length queue ≡ 64 → Holds (threadpool_init queue) []
  unfolding threadpool_init
  threadpool_init-Holds queue size =
      (size, omega arith, refl, refl, refl, λ i h. absurd (omega arith))

  get_elem?-before :
      (xs ys : List A) (i : ℕ) → i < length xs → get_elem? (xs ++ ys) i ≡ get_elem? xs i
  get_elem?-before [] ys i h = absurd (omega arith)
  get_elem?-before (x ∷ xs) ys zero h = refl
  get_elem?-before (x ∷ xs) ys (suc i) h = get_elem?-before xs ys i (omega arith)

  -- When fewer than 64 tasks wait, a task that is pushed waits behind them.
  threadpool_push-Holds :
      (pool : Pool A) (tasks : List A) (task : A)
      → Holds pool tasks
      → length tasks < 64
      → Holds (threadpool_push pool task) (tasks ++ task ∷ [])
  unfolding threadpool_push
  threadpool_push-Holds pool tasks task h room =
      let longer = length-append tasks (task ∷ []) in
      (
        length-set pool.queue pool.tail task ∙ h.0,
        h.1,
        omega (arith, longer, h.2),
        omega (arith, longer, h.3),
        h.4,
        λ i below. elim (dec_lt i (length tasks)) [
          | yes old ↦
              let apart : pool.tail ≢ (pool.head + i) % 64 =
                λ e. absurd (omega (arith, h.1, h.2)) in
              get_elem?-set_ne pool.queue pool.tail ((pool.head + i) % 64) task apart
              ∙ h.5 i old
              ∙ sym (get_elem?-before tasks (task ∷ []) i old)
          | no new ↦
              let place : (pool.head + i) % 64 ≡ pool.tail = omega (arith, longer, h.2) in
              let end : i ≡ length tasks + 0 = omega (arith, longer) in
              ap (get_elem? (set pool.queue pool.tail task)) place
              ∙ get_elem?-set_self pool.queue pool.tail task (omega (arith, h.0, h.2))
              ∙ sym (
                  ap (get_elem? (tasks ++ task ∷ [])) end
                  ∙ get_elem?-append_right tasks (task ∷ []) 0)
        ],
      )

  -- With nothing waiting a worker waits.
  worker-Holds_nil : (pool : Pool A) → Holds pool [] → worker pool ≡ (pool, waits)
  unfolding worker
  worker-Holds_nil pool h = rw (h.3, h.4) refl

  -- A worker takes the oldest task.
  worker-Holds_cons :
      (pool : Pool A) (task : A) (tasks : List A)
      → Holds pool (task ∷ tasks)
      → (pool' : Pool A) × (worker pool ≡ (pool', runs task)) × Holds pool' tasks
  unfolding worker
  worker-Holds_cons pool task tasks h =
      let first : (pool.head + 0) % 64 ≡ pool.head = omega (arith, h.1) in
      let found = rw first at (h.5 0 (omega arith)) in
      let busy : (pool.count == 0) ≡ false = ground (arith, h.3) in
      (
        record pool { head = (pool.head + 1) % 64; count = pool.count - 1 },
        rw (busy, h.4, found) refl,
        (
          h.0,
          omega (arith, h.1),
          omega (arith, h.1, h.2),
          omega (arith, h.3),
          h.4,
          λ i below.
              let next : (pool.head + suc i) % 64 ≡ ((pool.head + 1) % 64 + i) % 64 =
                omega (arith, h.1) in
              rw next at (h.5 (suc i) (omega arith)),
        ),
      )

-- What happens to the pool: a task is pushed, or a worker has its turn.
pub data Event {ℓ} (A : Type ℓ) : Type ℓ where
  pushed : A → Event A
  turn : Event A

module _ {ℓ} {A : Type ℓ} where
  -- the turns of the workers, in order
  unfoldable pub run_pool : List (Event A) → Pool A → List (Turn A)
  run_pool [] pool = []
  run_pool (pushed task ∷ events) pool = run_pool events (threadpool_push pool task)
  run_pool (turn ∷ events) pool = (worker pool).1 ∷ run_pool events (worker pool).0

  -- the same of a queue with no bound
  abbrev pub run_queue : List (Event A) → List A → List (Turn A)
  run_queue [] tasks = []
  run_queue (pushed task ∷ events) tasks = run_queue events (tasks ++ task ∷ [])
  run_queue (turn ∷ events) [] = waits ∷ run_queue events []
  run_queue (turn ∷ events) (task ∷ tasks) = runs task ∷ run_queue events tasks

  -- Every push finds fewer than 64 tasks waiting.
  abbrev pub Fits : List (Event A) → List A → Type 0
  Fits [] tasks = Unit
  Fits (pushed task ∷ events) tasks = (length tasks < 64) × Fits events (tasks ++ task ∷ [])
  Fits (turn ∷ events) [] = Fits events []
  Fits (turn ∷ events) (task ∷ tasks) = Fits events tasks

  run_pool-Holds :
      (events : List (Event A)) (pool : Pool A) (tasks : List A)
      → Holds pool tasks
      → Fits events tasks
      → run_pool events pool ≡ run_queue events tasks
  unfolding run_pool
  run_pool-Holds [] pool tasks h fits = refl
  run_pool-Holds (pushed task ∷ events) pool tasks h fits =
      run_pool-Holds events (threadpool_push pool task) (tasks ++ task ∷ [])
        (threadpool_push-Holds pool tasks task h fits.0) fits.1
  run_pool-Holds (turn ∷ events) pool [] h fits =
      rw (worker-Holds_nil pool h) (ap (λ ts. waits ∷ ts) (run_pool-Holds events pool [] h fits))
  run_pool-Holds (turn ∷ events) pool (task ∷ tasks) h fits =
      let turned = worker-Holds_cons pool task tasks h in
      rw turned.1 (ap (λ ts. runs task ∷ ts) (run_pool-Holds events turned.0 tasks turned.2 fits))

  -- From the start, over any sequence of pushes and turns of workers in which every push finds fewer
  -- than 64 tasks waiting, the workers wait and run just as those of a first-in first-out queue do.
  pub run_pool-run_queue :
      (queue : List A) (events : List (Event A))
      → length queue ≡ 64
      → Fits events []
      → run_pool events (threadpool_init queue) ≡ run_queue events []
  run_pool-run_queue queue events size fits =
      run_pool-Holds events (threadpool_init queue) [] (threadpool_init-Holds queue size) fits

  -- When 64 tasks wait, nothing stops a push: the next worker runs the new task in place of the
  -- oldest one, which is lost.
  pub threadpool_push-full :
      (pool : Pool A) (tasks : List A) (task : A)
      → Holds pool tasks
      → length tasks ≡ 64
      → (worker (threadpool_push pool task)).1 ≡ runs task
  unfolding threadpool_push worker
  threadpool_push-full pool tasks task h full =
      let place : pool.tail ≡ pool.head = omega (arith, h.1, h.2) in
      let busy : (pool.count + 1 == 0) ≡ false = ground arith in
      let found = get_elem?-set_self pool.queue pool.head task (omega (arith, h.0, h.1)) in
      rw (place, busy, h.4, found) refl

  worker-stopped : (pool : Pool A) → pool.stop ≡ true → worker pool ≡ (pool, exits)
  unfolding worker
  worker-stopped pool h = elim (Bool-cases (pool.count == 0)) [
    | inl idle ↦ rw (idle, h) refl
    | inr busy ↦ rw (busy, h) refl
  ]

  run_pool-stopped :
      (events : List (Event A)) (pool : Pool A)
      → pool.stop ≡ true
      → All (λ t. t ≡ exits) (run_pool events pool)
  unfolding run_pool threadpool_push
  run_pool-stopped [] pool h = tt
  run_pool-stopped (pushed task ∷ events) pool h =
      run_pool-stopped events (threadpool_push pool task) h
  run_pool-stopped (turn ∷ events) pool h =
      rw (worker-stopped pool h) (refl, run_pool-stopped events pool h)

  -- After `threadpool_destroy` every turn of a worker ends in its return, whatever waits or is pushed.
  pub threadpool_destroy-worker :
      (pool : Pool A) (events : List (Event A))
      → All (λ t. t ≡ exits) (run_pool events (threadpool_destroy pool))
  unfolding threadpool_destroy
  threadpool_destroy-worker pool events = run_pool-stopped events (record pool { stop = true }) refl
