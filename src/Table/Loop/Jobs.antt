-- ===== src/Table/Loop/Jobs.antt =====
-- The goroutines that the loop of crawler/net/discovery/table/table.go starts.
use node_util.Base.{◌≡◌, refl, false, not, List, [], ◌∷◌, arith, one_when}
use node_util.Table.Loop.{
  running, stopped, Loop, Event, refresh_tick, revalidate_tick, copy_tick, refresh_call,
  refresh_finished, revalidate_finished, close_call, start_loop, turn, run,
}

-- At most one goroutine of each kind is under way, the loop knows of it, and the timer of the next
-- revalidation runs exactly while there is none.
pub record IsSingle (l : Loop) : Type 0 where
  pub refreshes : l.refreshes ≡ one_when l.refreshing
  pub revalidations : l.revalidations ≡ one_when l.revalidating
  pub timer : l.phase ≡ running → l.armed ≡ not l.revalidating
  pub quiet : l.phase ≡ stopped → (l.refreshing ≡ false) × (l.revalidating ≡ false)

refreshes-turn :
    (l : Loop) (e : Event) → IsSingle l → (turn l e).refreshes ≡ one_when (turn l e).refreshing
unfolding turn
refreshes-turn l refresh_tick ok = ground (arith, ok.refreshes)
refreshes-turn l revalidate_tick ok = ground (arith, ok.refreshes)
refreshes-turn l copy_tick ok = ground (arith, ok.refreshes)
refreshes-turn l refresh_call ok = ground (arith, ok.refreshes)
refreshes-turn l refresh_finished ok = ground (arith, ok.refreshes)
refreshes-turn l revalidate_finished ok = ground (arith, ok.refreshes)
refreshes-turn l close_call ok = ground (arith, ok.refreshes)

revalidations-turn :
    (l : Loop) (e : Event)
    → IsSingle l
    → (turn l e).revalidations ≡ one_when (turn l e).revalidating
unfolding turn
revalidations-turn l refresh_tick ok = ground (arith, ok.revalidations, ok.timer)
revalidations-turn l revalidate_tick ok = ground (arith, ok.revalidations, ok.timer)
revalidations-turn l copy_tick ok = ground (arith, ok.revalidations, ok.timer)
revalidations-turn l refresh_call ok = ground (arith, ok.revalidations, ok.timer)
revalidations-turn l refresh_finished ok = ground (arith, ok.revalidations, ok.timer)
revalidations-turn l revalidate_finished ok = ground (arith, ok.revalidations, ok.timer)
revalidations-turn l close_call ok = ground (arith, ok.revalidations, ok.timer)

timer-turn :
    (l : Loop) (e : Event)
    → IsSingle l
    → (turn l e).phase ≡ running
    → (turn l e).armed ≡ not (turn l e).revalidating
unfolding turn
timer-turn l refresh_tick ok = ground (arith, ok.timer)
timer-turn l revalidate_tick ok = ground (arith, ok.timer)
timer-turn l copy_tick ok = ground (arith, ok.timer)
timer-turn l refresh_call ok = ground (arith, ok.timer)
timer-turn l refresh_finished ok = ground (arith, ok.timer)
timer-turn l revalidate_finished ok = ground (arith, ok.timer)
timer-turn l close_call ok = ground (arith, ok.timer)

quiet-turn :
    (l : Loop) (e : Event)
    → IsSingle l
    → (turn l e).phase ≡ stopped
    → ((turn l e).refreshing ≡ false) × ((turn l e).revalidating ≡ false)
unfolding turn
quiet-turn l refresh_tick ok = ground (arith, ok.quiet)
quiet-turn l revalidate_tick ok = ground (arith, ok.quiet)
quiet-turn l copy_tick ok = ground (arith, ok.quiet)
quiet-turn l refresh_call ok = ground (arith, ok.quiet)
quiet-turn l refresh_finished ok = ground (arith, ok.quiet)
quiet-turn l revalidate_finished ok = ground (arith, ok.quiet)
quiet-turn l close_call ok = ground (arith, ok.quiet)

run-IsSingle' : (es : List Event) (l : Loop) → IsSingle l → IsSingle (run l es)
unfolding run
run-IsSingle' [] l ok = ok
run-IsSingle' (e ∷ es) l ok = run-IsSingle' es (turn l e) (record {
  refreshes = refreshes-turn l e ok;
  revalidations = revalidations-turn l e ok;
  timer = timer-turn l e ok;
  quiet = quiet-turn l e ok;
})

-- However the loop runs, at most one doRefresh and one doRevalidate are under way, and none of them
-- once the loop has stopped; while it runs, the timer of the next revalidation is set exactly when
-- no revalidation is under way.
pub run-IsSingle : (es : List Event) → IsSingle (run start_loop es)
unfolding start_loop
run-IsSingle es =
    run-IsSingle' es start_loop
      (record { refreshes = refl; revalidations = refl; timer = λ e. refl; quiet = λ e. cc })
