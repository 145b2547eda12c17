-- ===== src/Awaiter.antt =====
-- crawler/net/discovery/responseAwaiter.go: the queue that matches responses to pending requests. The
-- goroutine `run` owns the queue; one turn of its select is one event here. A request object is
-- named by a tag, since `mark` closes its channel and a second close would panic.
pub mod Once
pub mod Deadlines
mod Tests
use node_util.Base.{
  ℕ, ◌+◌, ◌-◌, ◌*◌, ◌/◌, Bool, true, false, ◌&&◌, ◌||◌, not, List, [], ◌∷◌, ◌++◌, map, Option, none,
  some, ltb, leb, ◌==◌, if◌then◌else◌, length,
}
use node_util.Node.{NodeId, Ip}
use node_util.Ip.{equal}

-- interfaces.Request and interfaces.Response, by what their methods return.
pub record Request : Type 0 where
  pub id : NodeId
  pub expected_kind : ℕ
  pub ip : Ip
  pub expiration : ℕ

pub record Response : Type 0 where
  pub id : NodeId
  pub kind : ℕ
  pub ip : Ip

pub record AwaitableRequest : Type 0 where
  pub tag : ℕ
  pub request : Request

pub data RespError : Type 0 where
  no_error : RespError
  deadline_passed : RespError
  invalid_response : RespError

-- `marked` lists the calls of `mark`, the oldest first; `made` counts the request objects.
pub record Awaiter : Type 0 where
  pub queue : List AwaitableRequest
  pub marked : List (ℕ × RespError)
  pub made : ℕ
  pub current : ℕ

abbrev pub lower : ℕ
lower = 100_000_000

abbrev pub upper : ℕ
upper = 5_000_000_000

unfoldable pub new_awaiter : Awaiter
new_awaiter = record { queue = []; marked = []; made = 0; current = upper / 2 }

unfoldable pub is_match : Request → Response → Bool
is_match req reply =
    (req.id == reply.id) && ((req.expected_kind == reply.kind) && equal req.ip reply.ip)

-- What a reply does to the request it belongs to: the error to mark it with, if it is removed. The
-- checker answers (ok, done).
unfoldable pub settle : Request → ℕ → Bool × Bool → Option RespError
settle req now (ok, finished) =
    if ltb req.expiration now
    then some deadline_passed
    else (if finished && ok
        then some no_error
        else (if not ok && not finished then some invalid_response else none))

module _ (now : ℕ) (checker : Request → Response → Bool × Bool) (reply : Response) where
  -- The walk over the queue ends at the first request that matches.
  unfoldable pub match_queue :
      List AwaitableRequest → List AwaitableRequest × Option (ℕ × RespError)
  unfolding settle
  match_queue [] = ([], none)
  match_queue (x ∷ xs) =
      let rest = match_queue xs in
      if is_match x.request reply
      then elim (settle x.request now (checker x.request reply)) [
        | none ↦ (x ∷ xs, none)
        | some e ↦ (xs, some (x.tag, e))
      ]
      else (x ∷ rest.0, rest.1)

-- `now.After(deadline) || now.Equal(deadline)`
unfoldable pub is_expired : ℕ → AwaitableRequest → Bool
is_expired now x = leb x.request.expiration now

-- The loop over q.Next(): it stops at the first request that is not expired.
unfoldable pub drop_expired : ℕ → List AwaitableRequest → List AwaitableRequest × List ℕ
unfolding is_expired
drop_expired now [] = ([], [])
drop_expired now (x ∷ xs) =
    let rest = drop_expired now xs in
    if is_expired now x then (rest.0, x.tag ∷ rest.1) else (x ∷ xs, [])

-- The front of the queue is looked at after the others. Returns the queue and the removed.
unfoldable pub check_deadlines : ℕ → List AwaitableRequest → List AwaitableRequest × List ℕ
unfolding drop_expired is_expired
check_deadlines now [] = ([], [])
check_deadlines now (q ∷ qs) =
    let (kept, dropped) = drop_expired now qs in
    if is_expired now q then (kept, dropped ++ q.tag ∷ []) else (q ∷ kept, dropped)

-- The time until the next look at the deadlines.
unfoldable pub next_delay : ℕ → ℕ → ℕ
next_delay current removed =
    if removed == 0
    then (if ltb upper (current * 2) then upper else current * 2)
    else (if ltb (current - current / 3) lower then lower else current - current / 3)

pub data Event : Type 0 where
  reply_event : ℕ → (Request → Response → Bool × Bool) → Response → Event
  request_event : Request → Event
  tick_event : ℕ → Event

abbrev pub marked_one : Option (ℕ × RespError) → List (ℕ × RespError)
marked_one none = []
marked_one (some m) = m ∷ []

-- One turn of the select in `run`, with AddPending's new object for a request.
unfoldable pub turn : Awaiter → Event → Awaiter
unfolding match_queue check_deadlines next_delay
turn a (reply_event now checker reply) =
    let (queue, m) = match_queue now checker reply a.queue in
    record a { queue = queue; marked = a.marked ++ marked_one m }
turn a (request_event req) = record a {
  queue = a.queue ++ record { tag = a.made; request = req } ∷ [];
  made = a.made + 1;
}
turn a (tick_event now) =
    let (queue, expired) = check_deadlines now a.queue in
    record a {
      queue = queue;
      marked = a.marked ++ map (λ t. (t, deadline_passed)) expired;
      current = next_delay a.current (length expired);
    }

unfoldable pub run : Awaiter → List Event → Awaiter
unfolding turn
run a [] = a
run a (e ∷ es) = run (turn a e) es
