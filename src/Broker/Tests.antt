-- ===== src/Broker/Tests.antt =====
-- Examples for the feed of a topic.
use node_util.Base.{◌≡◌, refl, List, [], ◌∷◌, arith}
use node_util.Broker.{new_topic, Event, subscribes, unsubscribes, message, consumer_starts, run}
use node_util.Broker.Counted.{early, late, after_start, run-count}

-- Three subscribe, the first before the consumer starts; all leave.
abbrev events : List Event
events =
    subscribes 1
    ∷ consumer_starts
    ∷ subscribes 2
    ∷ message 7
    ∷ subscribes 3
    ∷ unsubscribes 1
    ∷ unsubscribes 2
    ∷ unsubscribes 3
    ∷ unsubscribes 3
    ∷ message 8
    ∷ []

nobody_left : (run new_topic events).channels ≡ []
unfolding run new_topic
nobody_left = refl

both_got_it : (run new_topic events).delivered ≡ (1, 7) ∷ (2, 7) ∷ []
unfolding run new_topic
both_got_it = refl

run-count_example : (run new_topic events).count ≡ 4
unfolding early late after_start
run-count_example = run-count events (omega arith)
