-- ===== src/Runner/Iterator/Tests.antt =====
-- Examples for the iterator between its pushers and the workers of a runner.
use node_util.Base.{
  ℕ, ◌+◌, ◌≡◌, ◌⊎◌, refl, true, ltb, leb, List, [], ◌∷◌, Option, none, some, if◌then◌else◌,
}
use node_util.Runner.Pushed.{kept}
use node_util.Runner.Iterator.{
  Iterator, Event, push, set_flag, close_channel, enter_recv, takes, checks, finishes,
  pushes_result, gives_up, new_iterator, run,
}
use node_util.Runner.Iterator.Moves.{tally, in_hands, tally_results, results_in_hands}
use node_util.Runner.Iterator.Delivered.{run-delivered_items}

abbrev small : ℕ → Option ℕ
small x = if ltb x 5 then some x else none

-- The worker 1 takes its item before Stop and asks Stopped after it.
abbrev events : List (Event ℕ)
events =
    push 3
    ∷ push 9
    ∷ push 4
    ∷ enter_recv 0
    ∷ enter_recv 1
    ∷ takes 0 0
    ∷ checks 0
    ∷ finishes 0
    ∷ pushes_result 0
    ∷ takes 1 0
    ∷ set_flag
    ∷ checks 1
    ∷ close_channel
    ∷ gives_up 0
    ∷ []

abbrev final : Iterator ℕ ℕ
final = run true small (new_iterator 2) events

lost_one : final.lost ≡ 9 ∷ []
unfolding run new_iterator
lost_one = refl

run-delivered_items_example :
    (tally true small (leb 4) (leb 2) final.accepted
      ≡ ((tally true small (leb 4) (leb 2) final.handled
            + tally true small (leb 4) (leb 2) final.released)
          + tally true small (leb 4) (leb 2) final.lost)
        + (tally true small (leb 4) (leb 2) final.waiting
            + in_hands true small (leb 4) (leb 2) final))
    × (((final.released ≡ []) × (final.lost ≡ []) ⊎ (final.is_stopped ≡ true))
        × (tally_results true small (leb 4) (leb 2) final.results
              + results_in_hands true small (leb 4) (leb 2) final
            ≡ tally_results true small (leb 4) (leb 2) (kept true small final.handled)))
run-delivered_items_example = run-delivered_items true small (leb 4) (leb 2) 2 events
