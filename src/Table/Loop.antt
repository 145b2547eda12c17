-- ===== src/Table/Loop.antt =====
-- Run, refresh and close of crawler/net/discovery/table/table.go: the loop that schedules doRefresh,
-- doRevalidate and copyLiveNodes. One turn of its select, or the end of a goroutine that it waits
-- for, is an event. A channel of a caller is named by a number; 0 is initDone.
pub mod Waiting
pub mod Jobs
use node_util.Base.{ℕ, ◌+◌, ◌-◌, Bool, true, false, ◌&&◌, not, List, [], ◌∷◌, ◌++◌, if◌then◌else◌}

-- `stopping` is the part of Run after the loop.
pub data Phase : Type 0 where
  running stopping stopped : Phase

-- `refreshing` stands for a channel in refreshDone, `revalidating` for one in revalidateDone, `armed`
-- for a set revalidate timer. `made` counts the channels, `closed_channels` lists their closes,
-- `refreshes` and `revalidations` count the goroutines under way, `copies` those started.
pub record Loop : Type 0 where
  pub phase : Phase
  pub refreshing : Bool
  pub revalidating : Bool
  pub armed : Bool
  pub waiting : List ℕ
  pub closed_channels : List ℕ
  pub made : ℕ
  pub refreshes : ℕ
  pub revalidations : ℕ
  pub copies : ℕ

-- Run starts with a refresh.
unfoldable pub start_loop : Loop
start_loop = record {
  phase = running;
  refreshing = true;
  revalidating = false;
  armed = true;
  waiting = 0 ∷ [];
  closed_channels = [];
  made = 1;
  refreshes = 1;
  revalidations = 0;
  copies = 0;
}

-- `if refreshDone == nil`: at most one refresh is under way.
unfoldable pub start_refresh : Loop → Loop
start_refresh l =
    if l.refreshing then l else record l { refreshing = true; refreshes = l.refreshes + 1 }

abbrev pub close_waiting : Loop → Loop
close_waiting l = record l { closed_channels = l.closed_channels ++ l.waiting; waiting = [] }

-- After the loop: wait for the refresh, close the channels, wait for the revalidation.
unfoldable pub wind_down : Loop → Loop
wind_down l =
    if l.refreshing
    then record l { phase = stopping }
    else (if l.revalidating
        then record (close_waiting l) { phase = stopping }
        else record (close_waiting l) { phase = stopped })

pub data Event : Type 0 where
  refresh_tick revalidate_tick copy_tick : Event
  refresh_call : Event
  refresh_finished revalidate_finished : Event
  close_call : Event

abbrev pub add_channel : Loop → Loop
add_channel l = record l { waiting = l.waiting ++ l.made ∷ []; made = l.made + 1 }

abbrev pub end_refresh : Loop → Loop
end_refresh l = record l { refreshing = false; refreshes = l.refreshes - 1 }

abbrev pub end_revalidate : Loop → Loop
end_revalidate l = record l { revalidating = false; revalidations = l.revalidations - 1 }

unfoldable pub turn_running : Loop → Event → Loop
unfolding start_refresh wind_down
turn_running l refresh_tick = start_refresh l
turn_running l refresh_call = start_refresh (add_channel l)
turn_running l refresh_finished = if l.refreshing then close_waiting (end_refresh l) else l
turn_running l revalidate_tick =
    if l.armed
    then record l { armed = false; revalidating = true; revalidations = l.revalidations + 1 }
    else l
turn_running l revalidate_finished =
    if l.revalidating then record (end_revalidate l) { armed = true } else l
turn_running l copy_tick = record l { copies = l.copies + 1 }
turn_running l close_call = wind_down l

-- After close, refresh closes the channel of a caller itself.
abbrev pub refuse_channel : Loop → Loop
refuse_channel l = record l {
  closed_channels = l.closed_channels ++ l.made ∷ [];
  made = l.made + 1;
}

unfoldable pub turn_stopping : Loop → Event → Loop
unfolding wind_down
turn_stopping l refresh_call = refuse_channel l
turn_stopping l refresh_finished = if l.refreshing then wind_down (end_refresh l) else l
turn_stopping l revalidate_finished = if l.revalidating then wind_down (end_revalidate l) else l
turn_stopping l refresh_tick = l
turn_stopping l revalidate_tick = l
turn_stopping l copy_tick = l
turn_stopping l close_call = l

unfoldable pub turn_stopped : Loop → Event → Loop
turn_stopped l refresh_call = refuse_channel l
turn_stopped l refresh_finished = l
turn_stopped l revalidate_finished = l
turn_stopped l refresh_tick = l
turn_stopped l revalidate_tick = l
turn_stopped l copy_tick = l
turn_stopped l close_call = l

unfoldable pub turn : Loop → Event → Loop
unfolding turn_running turn_stopping turn_stopped
turn l e = elim l.phase [
  | running ↦ turn_running l e
  | stopping ↦ turn_stopping l e
  | stopped ↦ turn_stopped l e
]

unfoldable pub run : Loop → List Event → Loop
unfolding turn
run l [] = l
run l (e ∷ es) = run (turn l e) es
