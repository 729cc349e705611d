-- ===== src/Pool.antt =====
-- The thread pool of threads/pool_thread.c: a ring of 64 tasks behind a lock. What happens under the
-- lock is one step, and `A` is the type of the tasks, each a function with its argument.
pub mod Fifo
mod Tests
use bite_bit_bitten.Common.{
  ℕ, ◌+◌, ◌-◌, ◌%◌, Bool, true, false, ◌&&◌, not, Option, none, some, List, ◌==◌, if◌then◌else◌,
  get_elem?, set,
}

pub record Pool {ℓ} (A : Type ℓ) : Type ℓ where
  pub queue : List A
  pub head : ℕ
  pub tail : ℕ
  pub count : ℕ
  pub stop : Bool

-- How a turn of a worker ends: it waits on the condition, returns, or runs a task.
pub data Turn {ℓ} (A : Type ℓ) : Type ℓ where
  waits exits : Turn A
  runs : A → Turn A

module _ {ℓ} {A : Type ℓ} where
  -- `queue` is what the memory of the ring holds before.
  unfoldable pub threadpool_init : List A → Pool A
  threadpool_init queue = record { queue = queue; head = 0; tail = 0; count = 0; stop = false }

  unfoldable pub threadpool_push : Pool A → A → Pool A
  threadpool_push pool task = record pool {
    queue = set pool.queue pool.tail task;
    tail = (pool.tail + 1) % 64;
    count = pool.count + 1;
  }

  unfoldable pub threadpool_destroy : Pool A → Pool A
  threadpool_destroy pool = record pool { stop = true }

  -- A read outside the ring does not occur: `head` is below 64.
  abbrev pub take_task : Pool A → Option A → Pool A × Turn A
  take_task pool none = (pool, exits)
  take_task pool (some task) =
      (record pool { head = (pool.head + 1) % 64; count = pool.count - 1 }, runs task)

  -- one round of the loop of `worker`
  unfoldable pub worker : Pool A → Pool A × Turn A
  worker pool =
      if pool.count == 0 && not pool.stop
      then (pool, waits)
      else if pool.stop
      then (pool, exits)
      else take_task pool (get_elem? pool.queue pool.head)
