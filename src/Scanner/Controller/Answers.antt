-- ===== src/Scanner/Controller/Answers.antt =====
-- What the calls of Scan and ScanNoWait of scanner/scanner/scanner.go are answered with.
use node_util.Base.{
  ℕ, ◌≡◌, ◌≢◌, ◌≤◌, refl, subst, Bool, ◌&&◌, List, [], ◌∷◌, Option, none, some, one_when, get_elem?,
  set, count, leb, All, All-set, All-append, All-get_elem?, if_cases,
}
use node_util.Scanner.{ScanItem, ScannedItem, run_scan, max_tcp_port}
use node_util.Scanner.Ports.{run_scan-open}
use node_util.Scanner.Controller.{
  scanned, Callback, pending, closed, holds, Caller, offering, awaiting, returned, Watcher,
  no_watcher, watching, called, ScanCall, Thread, idle, scanning, Controller, new_controller,
  new_call, take_item, hand_result, read_callback, end_context, end_watch, Event, scan,
  scan_no_wait, take_by, finish_by, receives, context_ends, watch_ends, stop, with_call,
  finish_scan, act, turn, run,
}

module _ (is_open : ℕ → ℕ → Bool) where
  -- A full scan of a range at an address, whatever the limiter did.
  abbrev pub IsScanOf : ℕ → ScanItem → ScannedItem → Type 0
  IsScanOf ip item r = (wait_ok : ℕ → Bool) × (run_scan wait_ok (is_open ip) item ≡ some r)

  abbrev InCallback : ℕ → ScanItem → Callback → Type 0
  InCallback ip item (holds r) = IsScanOf ip item r
  InCallback ip item _ = Unit

  abbrev InCaller : ℕ → ScanItem → Caller → Type 0
  InCaller ip item (returned (scanned ports)) =
      (r : ScannedItem) × (IsScanOf ip item r × (r.open_ports ≡ ports))
  InCaller ip item _ = Unit

  abbrev InWatcher : ℕ → ScanItem → Watcher → Type 0
  InWatcher ip item (called (some r)) = IsScanOf ip item r
  InWatcher ip item _ = Unit

  record IsRight (call : ScanCall) : Type 0 where
    callback_right : InCallback call.ip call.item call.callback
    caller_right : InCaller call.ip call.item call.caller
    watcher_right : InWatcher call.ip call.item call.watcher

  abbrev IsAllRight : Controller → Type 0
  IsAllRight s = All IsRight s.calls

  read_callback-IsRight :
      (call : ScanCall) (caller : Caller) (w : Watcher) (callback : Callback)
      → InCallback call.ip call.item callback
      → IsRight call
      → IsRight (read_callback call caller w callback)
  unfolding read_callback
  read_callback-IsRight call awaiting no_watcher (holds r) full ok = record {
    callback_right = tt;
    caller_right = (r, (full, refl));
    watcher_right = ok.watcher_right;
  }
  read_callback-IsRight call awaiting no_watcher closed full ok = record {
    callback_right = ok.callback_right;
    caller_right = tt;
    watcher_right = ok.watcher_right;
  }
  read_callback-IsRight call _ watching (holds r) full ok = record {
    callback_right = tt;
    caller_right = ok.caller_right;
    watcher_right = full;
  }
  read_callback-IsRight call _ watching closed full ok = record {
    callback_right = ok.callback_right;
    caller_right = ok.caller_right;
    watcher_right = tt;
  }
  read_callback-IsRight call caller w callback full ok = ok

  end_context-IsRight :
      (call : ScanCall) (caller : Caller) (w : Watcher)
      → IsRight call
      → IsRight (end_context call caller w)
  unfolding end_context
  end_context-IsRight call offering w ok = record {
    callback_right = ok.callback_right;
    caller_right = tt;
    watcher_right = ok.watcher_right;
  }
  end_context-IsRight call awaiting no_watcher ok = record {
    callback_right = ok.callback_right;
    caller_right = tt;
    watcher_right = ok.watcher_right;
  }
  end_context-IsRight call caller w ok = ok

  end_watch-IsRight : (call : ScanCall) (w : Watcher) → IsRight call → IsRight (end_watch call w)
  unfolding end_watch
  end_watch-IsRight call watching ok = record {
    callback_right = ok.callback_right;
    caller_right = ok.caller_right;
    watcher_right = tt;
  }
  end_watch-IsRight call w ok = ok

  hand_result-IsAllRight :
      (s : Controller) (t c : ℕ) (call : ScanCall) (wait_ok : ℕ → Bool) (r : Option ScannedItem)
      → run_scan wait_ok (is_open call.ip) call.item ≡ r
      → IsRight call
      → IsAllRight s
      → IsAllRight (hand_result s t c call r)
  unfolding hand_result
  hand_result-IsAllRight s t c call wait_ok (some r) e here ok =
      All-set IsRight s.calls c _ ok (record {
        callback_right = (wait_ok, e);
        caller_right = here.caller_right;
        watcher_right = here.watcher_right;
      })
  hand_result-IsAllRight s t c call wait_ok none e here ok =
      All-set IsRight s.calls c _ ok (record {
        callback_right = tt;
        caller_right = here.caller_right;
        watcher_right = here.watcher_right;
      })

  take_item-IsAllRight :
      (s : Controller) (t : ℕ) (th : Option Thread) (c : ℕ) (call : ScanCall)
      → IsRight call
      → IsAllRight s
      → IsAllRight (take_item s t th c call)
  unfolding take_item
  take_item-IsAllRight s t (some idle) c call here ok =
      elim call.caller
        as (λ x. IsAllRight (elim x [
          | offering ↦ record s {
            threads = set s.threads t (scanning c);
            calls = set s.calls c (record call { caller = awaiting; callback = pending });
          }
          | _ ↦ s
        ])) [
          | offering ↦ All-set IsRight s.calls c _ ok (record {
            callback_right = tt;
            caller_right = tt;
            watcher_right = here.watcher_right;
          })
          | _ ↦ ok
        ]
  take_item-IsAllRight s t th c call here ok = ok

  with_call-IsAllRight :
      (s : Controller) (c : ℕ) (f : ScanCall → Controller)
      → ((call : ScanCall) → IsRight call → IsAllRight (f call))
      → IsAllRight s
      → IsAllRight (with_call s c f)
  with_call-IsAllRight s c f good ok = with_found (get_elem? s.calls c) refl
    where
      with_found :
          (found : Option ScanCall)
          → get_elem? s.calls c ≡ found
          → IsAllRight (elim found [ none ↦ s | some call ↦ f call ])
      with_found none _ = ok
      with_found (some call) here = good call (All-get_elem? IsRight s.calls c call ok here)

  new-IsRight :
      (ip : ℕ) (item : ScanItem) (w : Watcher) → InWatcher ip item w → IsRight (new_call ip item w)
  new-IsRight ip item w right = record {
    callback_right = tt;
    caller_right = tt;
    watcher_right = right;
  }

  finish-IsAllRight :
      (s : Controller) (t : ℕ) (wait_ok : ℕ → Bool) (th : Option Thread)
      → IsAllRight s
      → IsAllRight (finish_scan is_open s t wait_ok th)
  unfolding finish_scan
  finish-IsAllRight s t wait_ok (some (scanning c)) ok =
      with_call-IsAllRight s c _
        (λ call here. hand_result-IsAllRight s t c call wait_ok _ refl here ok) ok
  finish-IsAllRight s t wait_ok th ok = ok

  act-IsAllRight : (s : Controller) (e : Event) → IsAllRight s → IsAllRight (act is_open s e)
  unfolding act
  act-IsAllRight s (scan ip item) ok =
      All-append IsRight s.calls _ ok (new-IsRight ip item no_watcher tt, tt)
  act-IsAllRight s (scan_no_wait ip item) ok =
      All-append IsRight s.calls _ ok (new-IsRight ip item watching tt, tt)
  act-IsAllRight s (take_by t c) ok =
      with_call-IsAllRight s c _ (λ call here. take_item-IsAllRight s t _ c call here ok) ok
  act-IsAllRight s (finish_by t wait_ok) ok = finish-IsAllRight s t wait_ok _ ok
  act-IsAllRight s (receives c) ok =
      with_call-IsAllRight s c _
        (λ call here. All-set IsRight s.calls c _ ok (
          read_callback-IsRight call call.caller call.watcher call.callback here.callback_right
            here))
        ok
  act-IsAllRight s (context_ends c) ok =
      with_call-IsAllRight s c _
        (λ call here.
          All-set IsRight s.calls c _ ok (end_context-IsRight call call.caller call.watcher here))
        ok
  act-IsAllRight s (watch_ends c) ok =
      with_call-IsAllRight s c _
        (λ call here. All-set IsRight s.calls c _ ok (end_watch-IsRight call call.watcher here)) ok
  act-IsAllRight s stop ok = ok

  run-IsAllRight : (s : Controller) (es : List Event) → IsAllRight s → IsAllRight (run is_open s es)
  unfolding run turn
  run-IsAllRight s [] ok = ok
  run-IsAllRight s (e ∷ es) ok =
      run-IsAllRight (turn is_open s e) es
        (if_cases IsAllRight s.crashed _ _ (λ _. ok) λ _. act-IsAllRight s e ok)

  -- However calls, threads, limiters, contexts and Stop mix, and as long as no port opens or closes:
  -- when Scan returns ports, each port below the last of the range that it was called with occurs
  -- once if it is in the range and open at the address that it was called with, and not at all else.
  pub run-scanned :
      (threads : ℕ) (es : List Event) (c : ℕ) (call : ScanCall) (ports : List ℕ) (p : ℕ)
      → get_elem? (run is_open (new_controller threads) es).calls c ≡ some call
      → call.caller ≡ returned (scanned ports)
      → call.item.port_start ≤ call.item.port_end
      → call.item.port_end ≤ max_tcp_port
      → p ≢ call.item.port_end
      → count p ports
        ≡ one_when ((leb call.item.port_start p && leb p call.item.port_end) && is_open call.ip p)
  unfolding new_controller
  run-scanned threads es c call ports p here back order bound below =
      let all = run-IsAllRight (new_controller threads) es tt in
      let right = All-get_elem? IsRight _ c call all here in
      let (r, ((wait_ok, e), same)) = subst (InCaller call.ip call.item) back right.caller_right in
      subst
        (λ found.
          count p found
          ≡ one_when
              ((leb call.item.port_start p && leb p call.item.port_end) && is_open call.ip p))
        same
        (run_scan-open wait_ok (is_open call.ip) call.item r p order bound e
          λ last. absurd (below last))
