-- ===== src/Runner/Iterator.antt =====
-- The iterators of crawler/crawler/iterator.go between those who push and the workers of
-- crawler/workers/runner/runner.go that receive. The two iterators differ in who waits in a push, the
-- caller or a goroutine; each step below is made by one goroutine.
pub mod Moves
pub mod Delivered
mod Tests
use node_util.Base.{
  remove_nth, ℕ, zero, suc, Bool, true, false, List, [], ◌∷◌, ◌++◌, Option, none, some,
  if◌then◌else◌, get_elem?, set, replicate,
}
use node_util.Runner.{RecvError, context_done, stopped}

-- Where the loop of a worker stands: before recv, in Next, before Stopped with what Next gave (none
-- for the zero value, when the iterator is closed), in OnData, in Push on
-- the next iterator, at its end.
pub data Worker (T Y : Type 0) : Type 0 where
  starting in_next : Worker T Y
  checking : Option T → Worker T Y
  working : T → Worker T Y
  pushing : Y → Worker T Y
  ended : RecvError → Worker T Y

-- `is_stopped` is the flag, `is_closed` the channel that Stop closes after it. `waiting` are the
-- pushes under way. The lists of items: `accepted` all that were pushed, `handled` those that OnData
-- is done with, in this order, `released` those whose push saw the closed channel, `lost` those that
-- a worker took when the flag was set; `results` are those whose Push on the next iterator has
-- returned, as that iterator took it or was stopped.
pub record Iterator (T Y : Type 0) : Type 0 where
  pub is_stopped : Bool
  pub is_closed : Bool
  pub is_done : Bool
  pub waiting : List T
  pub workers : List (Worker T Y)
  pub accepted : List T
  pub handled : List T
  pub released : List T
  pub lost : List T
  pub results : List Y

pub data Event (T : Type 0) : Type 0 where
  push : T → Event T
  -- the two steps of Stop, and the end of the workers' context
  set_flag close_channel cancel_context : Event T
  -- a worker enters recv, gets the k-th push, is woken by the closed channel, calls Stopped, is
  -- done with OnData, and returns from Push on the next iterator
  enter_recv : ℕ → Event T
  takes : ℕ → ℕ → Event T
  wakes checks finishes pushes_result : ℕ → Event T
  -- the k-th push sees the closed channel
  gives_up : ℕ → Event T

module _ {T Y : Type 0} where
  unfoldable pub new_iterator : ℕ → Iterator T Y
  new_iterator threads = record {
    is_stopped = false;
    is_closed = false;
    is_done = false;
    waiting = [];
    workers = replicate threads starting;
    accepted = [];
    handled = [];
    released = [];
    lost = [];
    results = [];
  }

  abbrev pub put_worker : Iterator T Y → ℕ → Worker T Y → Iterator T Y
  put_worker s i w = record s { workers = set s.workers i w }

  -- Stop: the first caller sets the flag, and closes the channel later.
  unfoldable pub close : Iterator T Y → Iterator T Y
  close s = if s.is_stopped then record s { is_closed = true } else s

  -- recv: the end of the context is seen before Next, not in it.
  unfoldable pub begin_recv : Iterator T Y → ℕ → Worker T Y → Iterator T Y
  begin_recv s i starting =
      if s.is_done then put_worker s i (ended context_done) else put_worker s i in_next
  begin_recv s i _ = s

  unfoldable pub take_push : Iterator T Y → ℕ → ℕ → Worker T Y → Option T → Iterator T Y
  take_push s i k in_next (some x) = record s {
    waiting = remove_nth s.waiting k;
    workers = set s.workers i (checking (some x));
  }
  take_push s i k _ _ = s

  unfoldable pub wake : Iterator T Y → ℕ → Worker T Y → Iterator T Y
  wake s i in_next = if s.is_closed then put_worker s i (checking none) else s
  wake s i _ = s

  -- The zero value is only there once the flag is set: a worker that has it ends.
  unfoldable pub check_stopped : Iterator T Y → ℕ → Worker T Y → Iterator T Y
  check_stopped s i (checking (some x)) =
      if s.is_stopped
      then record s { workers = set s.workers i (ended stopped); lost = x ∷ s.lost }
      else put_worker s i (working x)
  check_stopped s i (checking none) = if s.is_stopped then put_worker s i (ended stopped) else s
  check_stopped s i _ = s

  unfoldable pub release : Iterator T Y → ℕ → Option T → Iterator T Y
  release s k none = s
  release s k (some x) =
      if s.is_closed
      then record s { waiting = remove_nth s.waiting k; released = x ∷ s.released }
      else s

  abbrev pub with_worker : Iterator T Y → ℕ → (Worker T Y → Iterator T Y) → Iterator T Y
  with_worker s i f = elim (get_elem? s.workers i) [ none ↦ s | some w ↦ f w ]

  unfoldable pub push_result : Iterator T Y → ℕ → Worker T Y → Iterator T Y
  push_result s i (pushing y) = record s {
    workers = set s.workers i starting;
    results = s.results ++ y ∷ [];
  }
  push_result s i _ = s

  -- `write` tells whether the runner has a next iterator; `on_data` gives none for an error.
  module _ (write : Bool) (on_data : T → Option Y) where
    unfoldable pub finish : Iterator T Y → ℕ → Worker T Y → Iterator T Y
    finish s i (working x) =
        let next : Worker T Y = elim (on_data x) [
          | none ↦ starting
          | some y ↦ if write then pushing y else starting
        ] in
        record s { workers = set s.workers i next; handled = s.handled ++ x ∷ [] }
    finish s i _ = s

    unfoldable pub turn : Iterator T Y → Event T → Iterator T Y
    unfolding close begin_recv take_push wake check_stopped release finish push_result
    turn s (push x) = record s { waiting = s.waiting ++ x ∷ []; accepted = x ∷ s.accepted }
    turn s set_flag = record s { is_stopped = true }
    turn s close_channel = close s
    turn s cancel_context = record s { is_done = true }
    turn s (enter_recv i) = with_worker s i (begin_recv s i)
    turn s (takes i k) = with_worker s i λ w. take_push s i k w (get_elem? s.waiting k)
    turn s (wakes i) = with_worker s i (wake s i)
    turn s (checks i) = with_worker s i (check_stopped s i)
    turn s (finishes i) = with_worker s i (finish s i)
    turn s (pushes_result i) = with_worker s i (push_result s i)
    turn s (gives_up k) = release s k (get_elem? s.waiting k)

    unfoldable pub run : Iterator T Y → List (Event T) → Iterator T Y
    unfolding turn
    run s [] = s
    run s (e ∷ es) = run (turn s e) es
