-- ===== src/Scanner/Controller.antt =====
-- The ScannerController of scanner/scanner/scanner.go: its threads, the calls of Scan and ScanNoWait
-- and the channels between them. Contexts that end and limiters that fail are events. The channel
-- `done` is never made, so no select that waits for it is ever woken by it.
pub mod Pending
pub mod Served
pub mod Answers
mod Tests
use node_util.Base.{
  ℕ, ◌≡◌, Bool, true, false, List, [], ◌∷◌, ◌++◌, Option, none, some, if◌then◌else◌, get_elem?, set,
  replicate, ◌==◌,
}
use node_util.Scanner.{ScanItem, ScannedItem, run_scan}

-- What Scan returns: the open ports, the failure of a canceled scan, or the error of its context.
pub data ScanOutcome : Type 0 where
  scanned : List ℕ → ScanOutcome
  canceled context_done : ScanOutcome

-- The channel `callback` of an item, with room for one: empty before a thread has taken the item and
-- while it scans, then full, closed, or read.
pub data Callback : Type 0 where
  untaken pending closed read_out : Callback
  holds : ScannedItem → Callback

-- Where a caller stands: before `in <- item`, before its callback, or at its end.
pub data Caller : Type 0 where
  offering awaiting : Caller
  returned : ScanOutcome → Caller

-- The goroutine of ScanNoWait: not there for Scan; it calls its function once, with nil for a channel
-- that was closed.
pub data Watcher : Type 0 where
  no_watcher watching ended : Watcher
  called : Option ScannedItem → Watcher

pub record ScanCall : Type 0 where
  pub ip : ℕ
  pub item : ScanItem
  pub caller : Caller
  pub callback : Callback
  pub watcher : Watcher

-- A goroutine of runScanner, with the number of the call that it works for.
pub data Thread : Type 0 where
  idle gone : Thread
  scanning : ℕ → Thread

-- `crashed` is the panic of closing a nil channel.
pub record Controller : Type 0 where
  pub threads : List Thread
  pub calls : List ScanCall
  pub crashed : Bool

unfoldable pub new_controller : ℕ → Controller
new_controller threads = record { threads = replicate threads idle; calls = []; crashed = false }

abbrev pub new_call : ℕ → ScanItem → Watcher → ScanCall
new_call ip item watcher = record {
  ip = ip;
  item = item;
  caller = offering;
  callback = untaken;
  watcher = watcher;
}

-- An idle thread receives the item that a caller offers. ScanNoWait returns nil then, and only its
-- goroutine waits on.
unfoldable pub take_item : Controller → ℕ → Option Thread → ℕ → ScanCall → Controller
take_item s t (some idle) c call = elim call.caller [
  | offering ↦ record s {
    threads = set s.threads t (scanning c);
    calls = set s.calls c (record call { caller = awaiting; callback = pending });
  }
  | _ ↦ s
]
take_item s t _ c call = s

-- ScanItem ends: a full result goes to the callback; else the callback is closed and the thread ends.
unfoldable pub hand_result : Controller → ℕ → ℕ → ScanCall → Option ScannedItem → Controller
hand_result s t c call (some result) = record s {
  threads = set s.threads t idle;
  calls = set s.calls c (record call { callback = holds result });
}
hand_result s t c call none = record s {
  threads = set s.threads t gone;
  calls = set s.calls c (record call { callback = closed });
}

-- The caller of Scan, or the goroutine of ScanNoWait, reads the callback.
unfoldable pub read_callback : ScanCall → Caller → Watcher → Callback → ScanCall
read_callback call awaiting no_watcher (holds r) = record call {
  caller = returned (scanned r.open_ports);
  callback = read_out;
}
read_callback call awaiting no_watcher closed = record call { caller = returned canceled }
read_callback call _ watching (holds r) = record call {
  watcher = called (some r);
  callback = read_out;
}
read_callback call _ watching closed = record call { watcher = called none }
read_callback call _ _ _ = call

-- The context ends for the caller. A caller of ScanNoWait that was taken has returned already.
unfoldable pub end_context : ScanCall → Caller → Watcher → ScanCall
end_context call offering _ = record call { caller = returned context_done }
end_context call awaiting no_watcher = record call { caller = returned context_done }
end_context call _ _ = call

-- It ends for the goroutine of ScanNoWait.
unfoldable pub end_watch : ScanCall → Watcher → ScanCall
end_watch call watching = record call { watcher = ended }
end_watch call _ = call

pub data Event : Type 0 where
  scan scan_no_wait : ℕ → ScanItem → Event
  take_by : ℕ → ℕ → Event
  -- a thread's ScanItem returns; the limiter waited without an error at these ports
  finish_by : ℕ → (ℕ → Bool) → Event
  receives context_ends watch_ends : ℕ → Event
  stop : Event

-- `with_call s c f` changes the call `c` if there is one.
abbrev pub with_call : Controller → ℕ → (ScanCall → Controller) → Controller
with_call s c f = elim (get_elem? s.calls c) [ none ↦ s | some call ↦ f call ]

abbrev pub put_call : Controller → ℕ → ScanCall → Controller
put_call s c call = record s { calls = set s.calls c call }

module _ (is_open : ℕ → ℕ → Bool) where
  unfoldable pub finish_scan : Controller → ℕ → (ℕ → Bool) → Option Thread → Controller
  unfolding hand_result
  finish_scan s t wait_ok (some (scanning c)) =
      with_call s c λ call. hand_result s t c call (run_scan wait_ok (is_open call.ip) call.item)
  finish_scan s t wait_ok _ = s

  unfoldable pub act : Controller → Event → Controller
  unfolding take_item finish_scan read_callback end_context end_watch
  act s (scan ip item) = record s { calls = s.calls ++ new_call ip item no_watcher ∷ [] }
  act s (scan_no_wait ip item) = record s { calls = s.calls ++ new_call ip item watching ∷ [] }
  act s (take_by t c) = with_call s c (take_item s t (get_elem? s.threads t) c)
  act s (finish_by t wait_ok) = finish_scan s t wait_ok (get_elem? s.threads t)
  act s (receives c) =
      with_call s c λ call. put_call s c (read_callback call call.caller call.watcher call.callback)
  act s (context_ends c) =
      with_call s c λ call. put_call s c (end_context call call.caller call.watcher)
  act s (watch_ends c) = with_call s c λ call. put_call s c (end_watch call call.watcher)
  act s stop = record s { crashed = true }

  -- Nothing happens after a panic.
  unfoldable pub turn : Controller → Event → Controller
  unfolding act
  turn s e = if s.crashed then s else act s e

  unfoldable pub run : Controller → List Event → Controller
  unfolding turn
  run s [] = s
  run s (e ∷ es) = run (turn s e) es
