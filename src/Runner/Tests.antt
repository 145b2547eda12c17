-- ===== src/Runner/Tests.antt =====
-- Examples for the runner.
use node_util.Base.{
  refl, ℕ, ◌≡◌, true, false, ltb, List, [], ◌∷◌, Option, none, some, if◌then◌else◌,
}
use node_util.Runner.{stopped, stopped, Turn, work_loop}
use node_util.Runner.Pushed.{empty_loop}

abbrev item_of : ℕ → Turn ℕ
item_of x = record { is_done = false; next = x; is_stopped = false }

abbrev turns : List (Turn ℕ)
turns =
    item_of 3 ∷ item_of 9 ∷ record { is_done = false; next = 0; is_stopped = true } ∷ item_of 4 ∷ []

abbrev small : ℕ → Option ℕ
small x = if ltb x 5 then some x else none

loop_result :
    work_loop true small empty_loop turns
    ≡ record { handled = 3 ∷ 9 ∷ []; pushed = 3 ∷ []; error = some stopped }
unfolding work_loop
loop_result = refl
