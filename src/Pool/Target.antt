-- ===== src/Pool/Target.antt =====
-- The pool of crawler/workers/base/pool.go runs at most as many workers as its target.
use node_util.Base.{
  ◌≢◌, All, ℕ, zero, suc, ◌^◌, ◌≤◌, ◌<◌, ◌≡◌, refl, inl, inr, Bool-cases, Option-cases, List, [],
  ◌∷◌, ◌++◌, some, arith, ltb, ◌==◌, length, length-append, get_elem?,
}
use node_util.Pool.{
  Pool, new_pool, spawn_worker, add_worker, spawn_one, spawn_pending, remove_at, end_worker, Event,
  starts, start, worker_in, ticker, worker_end, turn, run,
}

pub record IsWithin (p : Pool) : Type 0 where
  pub counted : p.active_workers ≡ length p.running
  pub room : length p.running ≤ p.target
  pub target_fits : p.target < 2 ^ 32

length-remove_at :
    (xs : List ℕ) (i w : ℕ) → get_elem? xs i ≡ some w → suc (length (remove_at xs i)) ≡ length xs
length-remove_at [] i w h = cc
length-remove_at (x ∷ xs) zero w h = refl
length-remove_at (x ∷ xs) (suc i) w h = omega (arith, length-remove_at xs i w h)

spawn_worker-IsWithin :
    (p : Pool) (w : ℕ) → p.active_workers < p.target → IsWithin p → IsWithin (spawn_worker p w)
unfolding spawn_worker
spawn_worker-IsWithin p w h ok = record {
  counted = omega (arith, ok.counted, ok.target_fits, length-append p.running (w ∷ []));
  room = omega (arith, ok.counted, length-append p.running (w ∷ []));
  target_fits = ok.target_fits;
}

abbrev shorten : Pool → List ℕ → Pool
shorten p ws = record p { workers = ws }

shorten-IsWithin : (p : Pool) (ws : List ℕ) → IsWithin p → IsWithin (shorten p ws)
shorten-IsWithin p ws ok = record {
  counted = ok.counted;
  room = ok.room;
  target_fits = ok.target_fits;
}

spawn_one-IsWithin : (p : Pool) (ws : List ℕ) → IsWithin p → IsWithin (spawn_one p ws)
unfolding spawn_one
spawn_one-IsWithin p [] ok = ok
spawn_one-IsWithin p (w ∷ ws) ok = elim (Bool-cases (ltb p.active_workers p.target)) [
  | inl room ↦
      rw room (spawn_worker-IsWithin (shorten p ws) w (ground arith) (shorten-IsWithin p ws ok))
  | inr full ↦ rw full ok
]

spawn_pending-IsWithin : (ws : List ℕ) (p : Pool) → IsWithin p → IsWithin (spawn_pending ws p)
unfolding spawn_pending
spawn_pending-IsWithin [] p ok = ok
spawn_pending-IsWithin (w ∷ ws) p ok = elim (Bool-cases (p.active_workers == p.target)) [
  | inl full ↦ rw full ok
  | inr room ↦ rw room (
      spawn_pending-IsWithin ws (spawn_worker (shorten p ws) w) (
        spawn_worker-IsWithin (shorten p ws) w (ground (arith, ok.counted, ok.room))
          (shorten-IsWithin p ws ok)))
]

end_worker-IsWithin : (p : Pool) (i : ℕ) → IsWithin p → IsWithin (end_worker p i)
unfolding end_worker
end_worker-IsWithin p i ok = elim (Option-cases (get_elem? p.running i)) [
  | inl absent ↦ rw (absent, end_worker) ok
  | inr (w, found) ↦
      let fewer = length-remove_at p.running i w found in
      rw (found, end_worker)
        (record {
          counted = omega (arith, ok.counted, ok.room, ok.target_fits, fewer);
          room = omega (arith, ok.room, fewer);
          target_fits = ok.target_fits;
        })
]

abbrev pub IsMonitored : Event → Type 0
IsMonitored e = e ≢ starts

turn-IsWithin : (p : Pool) (e : Event) → IsMonitored e → IsWithin p → IsWithin (turn p e)
unfolding turn add_worker
turn-IsWithin p starts late ok = absurd (late refl)
turn-IsWithin p (worker_in w) late ok =
    spawn_one-IsWithin _ _ (shorten-IsWithin p (p.workers ++ w ∷ []) ok)
turn-IsWithin p ticker late ok = spawn_one-IsWithin _ _ (spawn_pending-IsWithin p.workers p ok)
turn-IsWithin p (worker_end i) late ok = end_worker-IsWithin p i ok

run_from : (es : List Event) (p : Pool) → All IsMonitored es → IsWithin p → IsWithin (run p es)
unfolding run
run_from [] p late ok = ok
run_from (e ∷ es) p late ok = run_from es (turn p e) late.1 (turn-IsWithin p e late.0 ok)

-- Once the goroutine of Start has found the queue of a new pool empty, then whatever workers come and
-- end, the pool never runs more workers than its target, and its counter of active workers is the
-- number of those that run.
pub run-IsWithin :
    (target : ℕ) (es : List Event)
    → All IsMonitored es
    → IsWithin (run (new_pool target) (starts ∷ es))
unfolding new_pool run start turn
run-IsWithin target es late =
    run_from es (start (new_pool target)) late
      (record { counted = refl; room = omega arith; target_fits = omega arith })
