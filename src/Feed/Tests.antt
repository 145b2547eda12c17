-- ===== src/Feed/Tests.antt =====
-- Examples for the feed.
use node_util.Base.{◌≤◌, ℕ, ◌≡◌, refl, false, List, [], ◌∷◌, arith, count}
use node_util.Feed.{
  Event, subscribe_event, unsubscribe_event, stop_event, lock_event, send_event, start_event,
  step_event, end_event, new_feed, put, remove, subscribe, unsubscribe, close_channel, close_all,
  stop, stop_locked, send, start_sender, step_sender, send_to, end_sender, turn, run,
}
use node_util.Feed.Closed.{run-calm}
use node_util.Feed.Account.{accepted}
use node_util.Feed.Stopped.{run-stopped}

-- Three listeners, of which one leaves; a message to the others, and one that comes too late.
abbrev events : List (Event ℕ)
events =
    subscribe_event 1 10
    ∷ subscribe_event 2 20
    ∷ subscribe_event 3 30
    ∷ unsubscribe_event 2
    ∷ send_event 7
    ∷ start_event 0
    ∷ step_event 0 1
    ∷ step_event 0 0
    ∷ stop_event
    ∷ lock_event
    ∷ end_event 0
    ∷ lock_event
    ∷ subscribe_event 4 40
    ∷ []

abbrev late : List (Event ℕ)
late = send_event 8 ∷ start_event 0 ∷ step_event 0 0 ∷ []

program : Unit {0}
unfolding new_feed put remove subscribe unsubscribe close_channel close_all stop stop_locked send
    start_sender step_sender send_to end_sender turn run
program = tt

after_events :
    ((run new_feed events).sent ≡ (30, 7) ∷ (10, 7) ∷ [])
    × ((run new_feed events).closed ≡ 20 ∷ 10 ∷ 30 ∷ [])
unfolding program
after_events = (refl, refl)

run-calm_example :
    ((run new_feed events).panics ≡ false) × ((c : ℕ) → count c (run new_feed events).closed ≤ 1)
run-calm_example = run-calm events (λ c. ground arith)

run-stopped_example :
    (count 30 (run new_feed events).closed ≡ count 30 (accepted new_feed events))
    × ((run (run new_feed events) late).sent ≡ (run new_feed events).sent)
unfolding program
run-stopped_example = run-stopped events late 30 (λ i. ground arith) refl refl
