-- ===== src/Scanner/Controller/Served.antt =====
-- Each item that a thread of scanner/scanner/scanner.go has taken is worked on until it is answered.
use node_util.Base.{
  ◌⊎◌, some_inj, subst, ℕ, zero, suc, ◌≡◌, refl, ◌∙◌, sym, ap, Bool, inl, inr, List, [], ◌∷◌, ◌++◌,
  Option, none, some, arith, one_when, get_elem?, replicate, total, if_cases,
}
use node_util.Scanner.Controller.Pending.{
  works_on, is_pending, callback_of, workers_of, needs_work, IsFresh, IsServed, taken-IsFresh,
  put_call-IsServed, take_item-IsServed, hand_result-IsServed,
}
use node_util.Scanner.{ScanItem}
use node_util.Scanner.Controller.{
  Callback, closed, read_out, holds, Caller, offering, awaiting, Watcher, no_watcher, watching,
  ScanCall, Thread, idle, scanning, Controller, new_controller, new_call, read_callback,
  end_context, end_watch, Event, scan, scan_no_wait, take_by, finish_by, receives, context_ends,
  watch_ends, stop, with_call, put_call, finish_scan, act, turn, run,
}

-- What a reader or an end of a context changes in a call.
record IsCalm (call new : ScanCall) : Type 0 where
  same : is_pending new.callback ≡ is_pending call.callback
  fresh : IsFresh new.callback new.caller

read_callback-IsCalm :
    (call : ScanCall) (caller : Caller) (w : Watcher) (callback : Callback)
    → call.callback ≡ callback
    → IsFresh call.callback call.caller
    → IsCalm call (read_callback call caller w callback)
unfolding read_callback
read_callback-IsCalm call awaiting no_watcher (holds r) e fresh = record {
  same = rw e refl;
  fresh = tt;
}
read_callback-IsCalm call awaiting no_watcher closed e fresh = record { same = refl; fresh = tt }
read_callback-IsCalm call _ watching (holds r) e fresh = record {
  same = rw e refl;
  fresh = taken-IsFresh call.callback read_out call.caller fresh λ untaken_yet. cc (e, untaken_yet);
}
read_callback-IsCalm call _ watching closed e fresh = record { same = refl; fresh = fresh }
read_callback-IsCalm call caller w callback e fresh = record { same = refl; fresh = fresh }

end_context-IsCalm :
    (call : ScanCall) (caller : Caller) (w : Watcher)
    → call.caller ≡ caller
    → IsFresh call.callback caller
    → IsCalm call (end_context call caller w)
unfolding end_context
end_context-IsCalm call offering w e fresh = record { same = refl; fresh = tt }
end_context-IsCalm call awaiting no_watcher e fresh = record { same = refl; fresh = tt }
end_context-IsCalm call caller w e fresh = record {
  same = refl;
  fresh = subst (IsFresh call.callback) (sym e) fresh;
}

end_watch-IsCalm :
    (call : ScanCall) (w : Watcher)
    → IsFresh call.callback call.caller
    → IsCalm call (end_watch call w)
unfolding end_watch
end_watch-IsCalm call watching fresh = record { same = refl; fresh = fresh }
end_watch-IsCalm call w fresh = record { same = refl; fresh = fresh }

with_call-IsServed :
    (s : Controller) (c : ℕ) (f : ScanCall → Controller)
    → ((call : ScanCall) → get_elem? s.calls c ≡ some call → IsServed (f call))
    → IsServed s
    → IsServed (with_call s c f)
with_call-IsServed s c f good ok = with_found (get_elem? s.calls c) refl
  where
    with_found :
        (found : Option ScanCall)
        → get_elem? s.calls c ≡ found
        → IsServed (elim found [ none ↦ s | some call ↦ f call ])
    with_found none _ = ok
    with_found (some call) here = good call here

put-IsServed :
    (s : Controller) (c : ℕ) (call new : ScanCall)
    → get_elem? s.calls c ≡ some call
    → IsCalm call new
    → IsServed s
    → IsServed (put_call s c new)
put-IsServed s c call new here calm = put_call-IsServed s c call new here calm.same calm.fresh

-- A new call comes after the others.
get-new :
    (calls : List ScanCall) (new : ScanCall) (c : ℕ)
    → (get_elem? (calls ++ new ∷ []) c ≡ get_elem? calls c)
      ⊎ ((get_elem? calls c ≡ none) × (get_elem? (calls ++ new ∷ []) c ≡ some new))
get-new [] new zero = inr (refl, refl)
get-new [] new (suc c) = inl refl
get-new (x ∷ xs) new zero = inl refl
get-new (x ∷ xs) new (suc c) = get-new xs new c

new-IsServed :
    (s : Controller) (ip : ℕ) (item : ScanItem) (w : Watcher)
    → IsServed s
    → IsServed (record s { calls = s.calls ++ new_call ip item w ∷ [] })
unfolding workers_of needs_work
new-IsServed s ip item w ok = record {
  served = λ c. elim (get-new s.calls (new_call ip item w) c) [
    | inl old ↦ rw old (ok.served c)
    | inr (nothing, new) ↦
        rw new (ok.served c ∙ ap (λ o. one_when (is_pending (callback_of o))) nothing)
  ];
  offers = λ c call here. elim (get-new s.calls (new_call ip item w) c) [
    | inl old ↦ ok.offers c call (sym old ∙ here)
    | inr (_, new) ↦ subst (λ x. IsFresh x.callback x.caller) (some_inj (sym new ∙ here)) refl
  ];
}

module _ (is_open : ℕ → ℕ → Bool) where
  finish-IsServed :
      (s : Controller) (t : ℕ) (wait_ok : ℕ → Bool) (th : Option Thread)
      → get_elem? s.threads t ≡ th
      → IsServed s
      → IsServed (finish_scan is_open s t wait_ok th)
  unfolding finish_scan
  finish-IsServed s t wait_ok (some (scanning c)) busy ok =
      with_call-IsServed s c _ (λ call here. hand_result-IsServed s t c call _ busy here ok) ok
  finish-IsServed s t wait_ok th busy ok = ok

  act-IsServed : (s : Controller) (e : Event) → IsServed s → IsServed (act is_open s e)
  unfolding act workers_of needs_work
  act-IsServed s (scan ip item) ok = new-IsServed s ip item no_watcher ok
  act-IsServed s (scan_no_wait ip item) ok = new-IsServed s ip item watching ok
  act-IsServed s (take_by t c) ok =
      with_call-IsServed s c _ (λ call here. take_item-IsServed s t _ c call refl here ok) ok
  act-IsServed s (finish_by t wait_ok) ok = finish-IsServed s t wait_ok _ refl ok
  act-IsServed s (receives c) ok =
      with_call-IsServed s c _
        (λ call here.
          put-IsServed s c call _ here
            (read_callback-IsCalm call call.caller call.watcher call.callback refl
              (ok.offers c call here))
            ok)
        ok
  act-IsServed s (context_ends c) ok =
      with_call-IsServed s c _
        (λ call here.
          put-IsServed s c call _ here
            (end_context-IsCalm call call.caller call.watcher refl (ok.offers c call here)) ok)
        ok
  act-IsServed s (watch_ends c) ok =
      with_call-IsServed s c _
        (λ call here.
          put-IsServed s c call _ here (end_watch-IsCalm call call.watcher (ok.offers c call here))
            ok)
        ok
  act-IsServed s stop ok = record { served = ok.served; offers = ok.offers }

  run-IsServed : (s : Controller) (es : List Event) → IsServed s → IsServed (run is_open s es)
  unfolding run turn
  run-IsServed s [] ok = ok
  run-IsServed s (e ∷ es) ok =
      run-IsServed (turn is_open s e) es
        (if_cases IsServed s.crashed _ _ (λ _. ok) λ _. act-IsServed s e ok)

  none_work : (n c : ℕ) → total (works_on c) (replicate n idle) ≡ 0
  none_work zero c = refl
  none_work (suc n) c = omega (arith, none_work n c)

  -- However calls of Scan and ScanNoWait, threads, limiters, contexts and Stop mix, for each call
  -- whose item was taken and whose callback is neither filled nor closed yet exactly one thread is at
  -- work, also after the caller has given up, and for any other call no thread is.
  pub run-served :
      (threads : ℕ) (es : List Event) (c : ℕ)
      → workers_of (run is_open (new_controller threads) es) c
        ≡ needs_work (run is_open (new_controller threads) es) c
  unfolding new_controller workers_of needs_work
  run-served threads es c =
      (run-IsServed (new_controller threads) es
          (record { served = λ d. none_work threads d; offers = λ d call here. cc })).served
        c
