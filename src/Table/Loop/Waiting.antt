-- ===== src/Table/Loop/Waiting.antt =====
-- The callers of refresh in crawler/net/discovery/table/table.go do not wait for ever.
use node_util.Base.{ℕ, ◌+◌, ◌≡◌, false, List, [], ◌∷◌, arith, ltb, count, count-append, one_when}
use node_util.Table.Loop.{
  stopped, Loop, Event, refresh_tick, revalidate_tick, copy_tick, refresh_call, refresh_finished,
  revalidate_finished, close_call, start_loop, turn, run,
}

-- Callers wait only while a refresh is under way, and none waits once the loop has stopped.
pub record IsServing (l : Loop) : Type 0 where
  pub idle : l.refreshing ≡ false → l.waiting ≡ []
  pub ended : l.phase ≡ stopped → l.waiting ≡ []

-- Each channel is waiting or closed, once in all.
abbrev pub IsOnce : Loop → Type 0
IsOnce l = (t : ℕ) → count t l.waiting + count t l.closed_channels ≡ one_when (ltb t l.made)

idle-turn :
    (l : Loop) (e : Event) → IsServing l → (turn l e).refreshing ≡ false → (turn l e).waiting ≡ []
unfolding turn
idle-turn l refresh_tick ok = ground (arith, ok.idle, ok.ended)
idle-turn l revalidate_tick ok = ground (arith, ok.idle, ok.ended)
idle-turn l copy_tick ok = ground (arith, ok.idle, ok.ended)
idle-turn l refresh_call ok = ground (arith, ok.idle, ok.ended)
idle-turn l refresh_finished ok = ground (arith, ok.idle, ok.ended)
idle-turn l revalidate_finished ok = ground (arith, ok.idle, ok.ended)
idle-turn l close_call ok = ground (arith, ok.idle, ok.ended)

ended-turn :
    (l : Loop) (e : Event) → IsServing l → (turn l e).phase ≡ stopped → (turn l e).waiting ≡ []
unfolding turn
ended-turn l refresh_tick ok = ground (arith, ok.idle, ok.ended)
ended-turn l revalidate_tick ok = ground (arith, ok.idle, ok.ended)
ended-turn l copy_tick ok = ground (arith, ok.idle, ok.ended)
ended-turn l refresh_call ok = ground (arith, ok.idle, ok.ended)
ended-turn l refresh_finished ok = ground (arith, ok.idle, ok.ended)
ended-turn l revalidate_finished ok = ground (arith, ok.idle, ok.ended)
ended-turn l close_call ok = ground (arith, ok.idle, ok.ended)

run-IsServing : (es : List Event) (l : Loop) → IsServing l → IsServing (run l es)
unfolding run
run-IsServing [] l ok = ok
run-IsServing (e ∷ es) l ok =
    run-IsServing es (turn l e) (record { idle = idle-turn l e ok; ended = ended-turn l e ok })

turn-IsOnce : (l : Loop) (e : Event) → IsOnce l → IsOnce (turn l e)
unfolding turn
turn-IsOnce l refresh_tick ok t = ground (
  arith,
  ok t,
  count-append t l.waiting (l.made ∷ []),
  count-append t l.closed_channels l.waiting,
  count-append t l.closed_channels (l.made ∷ []),
)
turn-IsOnce l revalidate_tick ok t = ground (
  arith,
  ok t,
  count-append t l.waiting (l.made ∷ []),
  count-append t l.closed_channels l.waiting,
  count-append t l.closed_channels (l.made ∷ []),
)
turn-IsOnce l copy_tick ok t = ground (
  arith,
  ok t,
  count-append t l.waiting (l.made ∷ []),
  count-append t l.closed_channels l.waiting,
  count-append t l.closed_channels (l.made ∷ []),
)
turn-IsOnce l refresh_call ok t = ground (
  arith,
  ok t,
  count-append t l.waiting (l.made ∷ []),
  count-append t l.closed_channels l.waiting,
  count-append t l.closed_channels (l.made ∷ []),
)
turn-IsOnce l refresh_finished ok t = ground (
  arith,
  ok t,
  count-append t l.waiting (l.made ∷ []),
  count-append t l.closed_channels l.waiting,
  count-append t l.closed_channels (l.made ∷ []),
)
turn-IsOnce l revalidate_finished ok t = ground (
  arith,
  ok t,
  count-append t l.waiting (l.made ∷ []),
  count-append t l.closed_channels l.waiting,
  count-append t l.closed_channels (l.made ∷ []),
)
turn-IsOnce l close_call ok t = ground (
  arith,
  ok t,
  count-append t l.waiting (l.made ∷ []),
  count-append t l.closed_channels l.waiting,
  count-append t l.closed_channels (l.made ∷ []),
)

run-IsOnce : (es : List Event) (l : Loop) → IsOnce l → IsOnce (run l es)
unfolding run
run-IsOnce [] l ok = ok
run-IsOnce (e ∷ es) l ok = run-IsOnce es (turn l e) (turn-IsOnce l e ok)

start-IsOnce : IsOnce start_loop
unfolding start_loop
start-IsOnce t = ground arith

start-IsServing : IsServing start_loop
unfolding start_loop
start-IsServing = record { idle = λ e. cc; ended = λ e. cc }

-- After the end of a refresh nobody waits.
none_waiting : (l : Loop) → IsServing l → (turn l refresh_finished).waiting ≡ []
unfolding turn
none_waiting l ok = ground (arith, ok.idle, ok.ended)

made_kept : (l : Loop) → (turn l refresh_finished).made ≡ l.made
unfolding turn
made_kept l = ground arith

-- However the loop has run, the next end of a refresh leaves no caller waiting: initDone and the
-- channel of every caller so far are closed then, each exactly once, and no other channel is.
pub run-closes :
    (es : List Event) (t : ℕ)
    → ((turn (run start_loop es) refresh_finished).waiting ≡ [])
      × (count t (turn (run start_loop es) refresh_finished).closed_channels
          ≡ one_when (ltb t (run start_loop es).made))
run-closes es t =
    let l = run start_loop es in
    let empty = none_waiting l (run-IsServing es start_loop start-IsServing) in
    let once = turn-IsOnce l refresh_finished (run-IsOnce es start_loop start-IsOnce) t in
    (empty, ground (arith, once, empty, made_kept l))
