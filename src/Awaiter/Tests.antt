-- ===== src/Awaiter/Tests.antt =====
-- Examples for the queue of pending requests.
use node_util.Base.{Bool, ℕ, ◌<◌, ◌≡◌, true, List, [], ◌∷◌, All, arith, ltb, count, one_when, ◌+◌}
use node_util.Ip.{same, equal}
use node_util.Awaiter.{
  AwaitableRequest, Request, Response, Event, request_event, reply_event, tick_event, new_awaiter,
  is_match, settle, match_queue, drop_expired, check_deadlines, next_delay, run, is_expired, turn,
}
use node_util.Awaiter.Once.{run_once, tags, marks}
use node_util.Awaiter.Deadlines.{others, IsOrdered, check_deadlines-alive}

program : Unit {0}
unfolding same equal is_match settle match_queue drop_expired check_deadlines next_delay run turn
    new_awaiter is_expired others IsOrdered
program = tt

abbrev request : ℕ → ℕ → Request
request id at = record { id = id; expected_kind = 4; ip = 80 ∷ 1 ∷ 2 ∷ 3 ∷ []; expiration = at }

abbrev response : ℕ → Response
response id = record { id = id; kind = 4; ip = 80 ∷ 1 ∷ 2 ∷ 3 ∷ [] }

abbrev accepts : Request → Response → Bool × Bool
accepts req r = (true, true)

abbrev events : List Event
events =
    request_event (request 1 50)
    ∷ request_event (request 2 60)
    ∷ reply_event 10 accepts (response 2)
    ∷ tick_event 55
    ∷ []

abbrev pending : List AwaitableRequest
pending =
    record { tag = 0; request = request 1 50 }
    ∷ record { tag = 1; request = request 2 60 }
    ∷ record { tag = 2; request = request 3 70 }
    ∷ []

run_once_example :
    count 1 (tags (run new_awaiter events).queue) + count 1 (marks (run new_awaiter events).marked)
    ≡ one_when (ltb 1 (run new_awaiter events).made)
run_once_example = run_once events 1

pending-IsOrdered : IsOrdered pending
unfolding program
pending-IsOrdered = ground arith

check_deadlines-alive_example : All (λ y. 60 < y.request.expiration) (check_deadlines 60 pending).0
check_deadlines-alive_example = check_deadlines-alive 60 pending pending-IsOrdered
