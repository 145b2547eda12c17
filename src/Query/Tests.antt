-- ===== src/Query/Tests.antt =====
-- Examples for the lookup: three seeds, of which one brings a closer node.
use node_util.Base.{◌≤◌, ◌≡◌, refl, List, [], ◌∷◌, none, some, take, count, arith}
use node_util.Node.{Enode, NodeId, wrap_node}
use node_util.Samples.{sample_dist, sample_dist_laws, node_at}
use node_util.Distance.{push}
use node_util.Query.{
  Lookup, push_seeds, new_lookup, has, Event, next_event, answer_event, play, begin_round, run,
}
use node_util.Query.Slots.{IsBalanced, play-IsBalanced}
use node_util.Query.Asked.{run-queried}
use node_util.Query.Depth.{run-take}
use node_util.Query.Ranked.{IsRanked, run-IsRanked}

abbrev seed : NodeId → Enode
seed id = (node_at id 1 0).enode

abbrev start : Lookup
start = new_lookup sample_dist (seed 40 ∷ seed 30 ∷ []) 10 2 3 2

abbrev events : List Event
events =
    next_event
    ∷ next_event
    ∷ answer_event 1 (some (seed 20 ∷ seed 40 ∷ []))
    ∷ answer_event 0 none
    ∷ []

play-IsBalanced_example : IsBalanced (play (begin_round start) events)
play-IsBalanced_example = play-IsBalanced start events

start_queried : start.queried ≡ []
unfolding new_lookup push_seeds
start_queried = refl

run-queried_example : count 30 (run sample_dist start (events ∷ [])).queried ≤ 1
run-queried_example = run-queried sample_dist start (events ∷ []) 30 start_queried

start_depth : start.depth ≤ 2
unfolding new_lookup push_seeds
start_depth = omega arith

start-IsRanked : IsRanked sample_dist sample_dist_laws start
unfolding new_lookup push_seeds has push wrap_node
start-IsRanked = record { sorted = ground arith; size = ground arith; distinct = λ t. ground arith }

run-IsRanked_example : IsRanked sample_dist sample_dist_laws (run sample_dist start (events ∷ []))
run-IsRanked_example = run-IsRanked sample_dist sample_dist_laws (events ∷ []) start start-IsRanked

run-take_example :
    run sample_dist start (events ∷ events ∷ events ∷ [])
    ≡ run sample_dist start (take 2 (events ∷ events ∷ events ∷ []))
run-take_example = run-take sample_dist (events ∷ events ∷ events ∷ []) 2 start start_depth
