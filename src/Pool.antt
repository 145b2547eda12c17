-- ===== src/Pool.antt =====
-- crawler/workers/base/pool.go: the pool that runs workers, a bounded number at once. The goroutine
-- `monitor` and the ends of workers are events. Workers are named by numbers.
pub mod Target
pub mod Workers
mod Tests
use node_util.Base.{
  ℕ, zero, suc, ◌+◌, ◌-◌, ◌%◌, ◌^◌, Bool, true, false, List, [], ◌∷◌, ◌++◌, Option, none, some, ltb,
  ◌==◌, if◌then◌else◌, get_elem?,
}

-- `running` and `ended` list the workers whose Run has started and ended.
pub record Pool : Type 0 where
  pub workers : List ℕ
  pub target : ℕ
  pub active_workers : ℕ
  pub finished_workers : ℕ
  pub running : List ℕ
  pub ended : List ℕ

unfoldable pub new_pool : ℕ → Pool
new_pool target = record {
  workers = [];
  target = target % 2 ^ 32;
  active_workers = 0;
  finished_workers = 0;
  running = [];
  ended = [];
}

-- `atomic.AddUint32` wraps at 32 bits.
unfoldable pub spawn_worker : Pool → ℕ → Pool
spawn_worker p w = record p {
  active_workers = (p.active_workers + 1) % 2 ^ 32;
  running = p.running ++ w ∷ [];
}

-- popWorker; on an empty pool, the worker that does nothing has no number.
unfoldable pub pop_worker : Pool → Pool × Option ℕ
pop_worker p = elim p.workers [ [] ↦ (p, none) | w ∷ ws ↦ (record p { workers = ws }, some w) ]

unfoldable pub add_worker : Pool → ℕ → Pool
add_worker p w = record p { workers = p.workers ++ w ∷ [] }

-- The goroutine of Start that holds the lock of the queue while it spawns all that is queued; it does
-- not look at the target.
unfoldable pub spawn_all : List ℕ → Pool → Pool
unfolding spawn_worker
spawn_all [] p = p
spawn_all (w ∷ ws) p = spawn_all ws (spawn_worker p w)

unfoldable pub start : Pool → Pool
unfolding spawn_all
start p = record (spawn_all p.workers p) { workers = [] }

-- What monitor does before it waits: one worker is spawned if there is room.
unfoldable pub spawn_one : Pool → List ℕ → Pool
unfolding spawn_worker
spawn_one p [] = p
spawn_one p (w ∷ ws) =
    if ltb p.active_workers p.target then spawn_worker (record p { workers = ws }) w else p

-- The loop of a tick, over the pending workers.
unfoldable pub spawn_pending : List ℕ → Pool → Pool
unfolding spawn_worker
spawn_pending [] p = p
spawn_pending (w ∷ ws) p =
    let rest = spawn_pending ws (spawn_worker (record p { workers = ws }) w) in
    if p.active_workers == p.target then p else rest

abbrev pub remove_at : List ℕ → ℕ → List ℕ
remove_at [] i = []
remove_at (x ∷ xs) zero = xs
remove_at (x ∷ xs) (suc i) = x ∷ remove_at xs i

-- The end of a running worker: `^uint32(0)` is -1.
unfoldable pub end_worker : Pool → ℕ → Pool
end_worker p i = elim (get_elem? p.running i) [
  | none ↦ p
  | some w ↦ record p {
    active_workers = (p.active_workers + (2 ^ 32 - 1)) % 2 ^ 32;
    finished_workers = (p.finished_workers + 1) % 2 ^ 32;
    running = remove_at p.running i;
    ended = w ∷ p.ended;
  }
]

pub data Event : Type 0 where
  starts : Event
  worker_in : ℕ → Event
  ticker : Event
  worker_end : ℕ → Event

-- The goroutine of Start, a turn of monitor, or the end of a worker. Each is one step: that `start`
-- takes the queue between the test of monitor and its pop, which then gives the worker that does
-- nothing, is left out.
unfoldable pub turn : Pool → Event → Pool
unfolding start spawn_one add_worker spawn_pending end_worker
turn p starts = start p
turn p (worker_in w) = let q = add_worker p w in spawn_one q q.workers
turn p ticker = let q = spawn_pending p.workers p in spawn_one q q.workers
turn p (worker_end i) = end_worker p i

unfoldable pub run : Pool → List Event → Pool
unfolding turn
run p [] = p
run p (e ∷ es) = run (turn p e) es
