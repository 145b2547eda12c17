-- ===== src/Pool/Tests.antt =====
-- Examples for the pool.
use node_util.Base.{◌≡◌, refl, List, [], ◌∷◌, ◌+◌, count}
use node_util.Pool.{
  Event, starts, start, spawn_all, worker_in, ticker, worker_end, run, new_pool, turn, spawn_one,
  spawn_worker, add_worker, spawn_pending, end_worker,
}
use node_util.Pool.Workers.{handed, run_total}
use node_util.Pool.Target.{IsWithin, run-IsWithin}

abbrev events : List Event
events =
    worker_in 1 ∷ worker_in 2 ∷ worker_in 3 ∷ ticker ∷ worker_end 0 ∷ ticker ∷ worker_end 5 ∷ []

run-IsWithin_example : IsWithin (run (new_pool 2) (starts ∷ events))
run-IsWithin_example = run-IsWithin 2 events (
  (λ e. cc e),
  ((λ e. cc e), ((λ e. cc e), ((λ e. cc e), ((λ e. cc e), ((λ e. cc e), ((λ e. cc e), tt)))))),
)

-- Start beside monitor: two workers run in a pool for one.
too_many : (run (new_pool 1) (worker_in 1 ∷ worker_in 2 ∷ starts ∷ [])).running ≡ 1 ∷ 2 ∷ []
unfolding run new_pool turn start spawn_all spawn_one spawn_worker add_worker
too_many = refl

-- The third worker runs once the first has ended.
run_two : (run (new_pool 2) events).running ≡ 2 ∷ 3 ∷ []
unfolding run new_pool turn spawn_one spawn_worker add_worker spawn_pending end_worker
run_two = refl

run_total_example :
    count 3 (run (new_pool 2) events).workers
      + (count 3 (run (new_pool 2) events).running + count 3 (run (new_pool 2) events).ended)
    ≡ handed 3 events
run_total_example = run_total 2 events 3
