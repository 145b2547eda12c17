-- ===== src/Handler/Execute.antt =====
-- Requests that execute of crawler/net/discovery/handler.go waits for.
use node_util.Base.{ℕ, ◌+◌, ◌≤◌, ◌≡◌, refl, true, List, [], ◌∷◌, ◌++◌, some, arith, count}
use node_util.Awaiter.{
  Awaiter, Request, Event, new_awaiter, turn, run, request_event, reply_event, tick_event,
}
use node_util.Awaiter.Once.{tags, marks, run_once}
use node_util.Handler.{enlist, execute, written_error, outcome}

run-append : (a : Awaiter) (es fs : List Event) → run a (es ++ fs) ≡ run (run a es) fs
unfolding run
run-append a [] fs = refl
run-append a (e ∷ es) fs = run-append (turn a e) es fs

made-turn : (a : Awaiter) (v : Event) → a.made ≤ (turn a v).made
unfolding turn
made-turn a (reply_event now checker reply) = omega arith
made-turn a (request_event req) = omega arith
made-turn a (tick_event now) = omega arith

made-run : (a : Awaiter) (es : List Event) → a.made ≤ (run a es).made
unfolding run
made-run a [] = omega arith
made-run a (v ∷ es) = omega (arith, made-turn a v, made-run (turn a v) es)

-- The request of a call is pending or marked, once in all, from then on.
enlisted_once :
    (es later : List Event) (req : Request)
    → let a = run new_awaiter es in
      let c = run (enlist a req true) later in
      count a.made (tags c.queue) + count a.made (marks c.marked) ≡ 1
unfolding enlist turn run
enlisted_once es later req =
    let a = run new_awaiter es in
    let all =
      rw (run-append new_awaiter es (request_event req ∷ later)) at
        (run_once (es ++ request_event req ∷ later) a.made) in
    let grown = made-run (turn a (request_event req)) later in ground (arith, all, grown)

-- A call of execute that is to wait, but whose packet cannot be written, ends with the writer's error
-- at once and for good; the request that it has added is not taken back, but pending or marked
-- from then on as any other, once in all.
pub execute-refused :
    (es later : List Event) (req : Request) (error : ℕ)
    → let a = run new_awaiter es in
      let (b, s) = execute a req true (some error) in
      let c = run b later in
      (outcome c s ≡ some (written_error error))
      × (count a.made (tags c.queue) + count a.made (marks c.marked) ≡ 1)
unfolding execute outcome
execute-refused es later req error = (refl, enlisted_once es later req)
