-- ===== src/Pool/Workers.antt =====
-- The pool of crawler/workers/base/pool.go loses no worker and runs none twice.
use node_util.Base.{
  ℕ, zero, suc, ◌+◌, ◌≡◌, refl, inl, inr, Bool-cases, Option-cases, List, [], ◌∷◌, some, arith, ltb,
  ◌==◌, get_elem?, count, count-append, one_when, ◌∙◌,
}
use node_util.Pool.{
  Pool, new_pool, spawn_worker, add_worker, spawn_one, spawn_pending, remove_at, end_worker, Event,
  starts, spawn_all, start, worker_in, ticker, worker_end, turn, run,
}

-- How often a worker is pending, running or at its end.
abbrev pub total : Pool → ℕ → ℕ
total p t = count t p.workers + (count t p.running + count t p.ended)

count-remove_at :
    (t : ℕ) (xs : List ℕ) (i w : ℕ)
    → get_elem? xs i ≡ some w
    → one_when (t == w) + count t (remove_at xs i) ≡ count t xs
count-remove_at t [] i w h = cc
count-remove_at t (x ∷ xs) zero w h = ground arith
count-remove_at t (x ∷ xs) (suc i) w h = omega (arith, count-remove_at t xs i w h)

-- How often a worker was handed to the pool.
unfoldable pub handed : ℕ → List Event → ℕ
handed t [] = 0
handed t (starts ∷ es) = handed t es
handed t (worker_in w ∷ es) = one_when (t == w) + handed t es
handed t (ticker ∷ es) = handed t es
handed t (worker_end i ∷ es) = handed t es

total-spawn_worker :
    (p : Pool) (w : ℕ) (ws : List ℕ) (t : ℕ)
    → p.workers ≡ w ∷ ws
    → total (spawn_worker (record p { workers = ws }) w) t ≡ total p t
unfolding spawn_worker
total-spawn_worker p w ws t h = rw (h, count-append t p.running (w ∷ [])) (omega arith)

total-spawn_one :
    (p : Pool) (ws : List ℕ) (t : ℕ) → p.workers ≡ ws → total (spawn_one p ws) t ≡ total p t
unfolding spawn_one
total-spawn_one p [] t h = refl
total-spawn_one p (w ∷ ws) t h = elim (Bool-cases (ltb p.active_workers p.target)) [
  | inl room ↦ rw room (total-spawn_worker p w ws t h)
  | inr full ↦ rw full refl
]

total-spawn_pending :
    (ws : List ℕ) (p : Pool) (t : ℕ) → p.workers ≡ ws → total (spawn_pending ws p) t ≡ total p t
unfolding spawn_pending spawn_worker
total-spawn_pending [] p t h = refl
total-spawn_pending (w ∷ ws) p t h = elim (Bool-cases (p.active_workers == p.target)) [
  | inl full ↦ rw full refl
  | inr room ↦ rw room (
      total-spawn_pending ws (spawn_worker (record p { workers = ws }) w) t refl
      ∙ total-spawn_worker p w ws t h)
]

total-end_worker : (p : Pool) (i t : ℕ) → total (end_worker p i) t ≡ total p t
unfolding end_worker
total-end_worker p i t = elim (Option-cases (get_elem? p.running i)) [
  | inl absent ↦ rw (absent, end_worker) refl
  | inr (w, found) ↦ rw (found, end_worker) (omega (arith, count-remove_at t p.running i w found))
]

total-spawn_all :
    (ws : List ℕ) (p : Pool) (t : ℕ)
    → (count t (spawn_all ws p).running ≡ count t ws + count t p.running)
      × ((spawn_all ws p).ended ≡ p.ended)
unfolding spawn_all spawn_worker
total-spawn_all [] p t = (omega arith, refl)
total-spawn_all (w ∷ ws) p t =
    let (more, same) = total-spawn_all ws (spawn_worker p w) t in
    (omega (arith, more, count-append t p.running (w ∷ [])), same)

total-start : (p : Pool) (t : ℕ) → total (start p) t ≡ total p t
unfolding start
total-start p t = let (more, same) = total-spawn_all p.workers p t in rw (more, same) (omega arith)

total-run : (es : List Event) (p : Pool) (t : ℕ) → total (run p es) t ≡ total p t + handed t es
unfolding run turn add_worker handed
total-run [] p t = omega arith
total-run (starts ∷ es) p t = omega (arith, total-run es (start p) t, total-start p t)
total-run (worker_in w ∷ es) p t =
    let q : Pool = add_worker p w in
    let more = total-run es (spawn_one q q.workers) t in
    let moved = total-spawn_one q q.workers t refl in
    omega (arith, more, moved, count-append t p.workers (w ∷ []))
total-run (ticker ∷ es) p t =
    let q = spawn_pending p.workers p in
    let more = total-run es (spawn_one q q.workers) t in
    let moved = total-spawn_one q q.workers t refl in
    omega (arith, more, moved, total-spawn_pending p.workers p t refl)
total-run (worker_end i ∷ es) p t =
    omega (arith, total-run es (end_worker p i) t, total-end_worker p i t)

-- Each worker handed to a new pool is pending, running or at its end, as often as it was handed in:
-- none is lost, and none runs twice for once.
pub run_total :
    (target : ℕ) (es : List Event) (t : ℕ)
    → count t (run (new_pool target) es).workers
        + (count t (run (new_pool target) es).running + count t (run (new_pool target) es).ended)
      ≡ handed t es
unfolding new_pool
run_total target es t = omega (arith, total-run es (new_pool target) t)
