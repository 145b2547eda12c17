-- ===== src/Runner/Iterator/Delivered.antt =====
-- What becomes of the items that are pushed into an iterator of crawler/crawler/iterator.go, with the
-- workers of crawler/workers/runner/runner.go on its other side.
use node_util.Base.{
  ◌⊎◌, ℕ, zero, suc, ◌+◌, ◌≡◌, refl, ap, Bool, true, false, inl, inr, Bool-cases, Option-cases,
  List, [], ◌∷◌, ◌++◌, Option, some, arith, one_when, get_elem?, set, replicate, total,
  total-append, total-set, if_cases, if◌then◌else◌,
}
use node_util.Runner.Pushed.{results, kept}
use node_util.Runner.Iterator.Moves.{
  begin_recv-IsDelivered, take_push-IsDelivered, wake-IsDelivered, check_stopped-IsDelivered,
  release-IsDelivered, push_result-IsDelivered, with_worker-IsDelivered, IsDelivered, tally, held,
  in_hands, tally_results, held_result, results_in_hands,
}
use node_util.Runner.Iterator.{
  Worker, starting, working, pushing, Iterator, Event, push, set_flag, close_channel,
  cancel_context, enter_recv, takes, wakes, checks, finishes, pushes_result, gives_up, new_iterator,
  close, finish, turn, run,
}

module _ {T Y : Type 0} (write : Bool) (on_data : T → Option Y) (test : T → Bool)
    (pass : Y → Bool) where
  results-append :
      (xs : List T) (x : T)
      → results on_data (xs ++ x ∷ []) ≡ results on_data xs ++ results on_data (x ∷ [])
  unfolding results
  results-append [] x = refl
  results-append (z ∷ zs) x = elim (Option-cases (on_data z)) [
    | inl failed ↦ rw (failed, results) (results-append zs x)
    | inr (y, done) ↦ rw (done, results) (ap (◌∷◌ y) (results-append zs x))
  ]

  -- What is passed on of one more item.
  kept-append :
      (on : Bool) (xs : List T) (x : T)
      → kept on on_data (xs ++ x ∷ [])
        ≡ kept on on_data xs ++ (if on then results on_data (x ∷ []) else [])
  kept-append true xs x = results-append xs x
  kept-append false xs x = refl

  -- The lists after OnData.
  done-IsDelivered :
      (s : Iterator T Y) (i : ℕ) (x : T) (next : Worker T Y)
      → get_elem? s.workers i ≡ some (working x)
      → held write on_data test pass next ≡ 0
      → held_result write on_data test pass next
        ≡ tally_results write on_data test pass (if write then results on_data (x ∷ []) else [])
      → IsDelivered write on_data test pass s
      → IsDelivered write on_data test pass
          (record s { workers = set s.workers i next; handled = s.handled ++ x ∷ [] })
  unfolding in_hands results_in_hands tally tally_results
  done-IsDelivered s i x next here none_held same ok = record {
    balance = omega (
      arith,
      ok.balance,
      none_held,
      total-set (held write on_data test pass) s.workers i (working x) next here,
      total-append (λ z. one_when (test z)) s.handled (x ∷ []),
    );
    flag = ok.flag;
    calm = ok.calm;
    passed_on = omega (
      arith,
      ok.passed_on,
      same,
      total-set (held_result write on_data test pass) s.workers i (working x) next here,
      ap (total (λ y. one_when (pass y))) (kept-append write s.handled x),
      total-append (λ y. one_when (pass y)) (kept write on_data s.handled)
          (if write then results on_data (x ∷ []) else []),
    );
  }

  finish-IsDelivered :
      (s : Iterator T Y) (i : ℕ) (w : Worker T Y)
      → get_elem? s.workers i ≡ some w
      → IsDelivered write on_data test pass s
      → IsDelivered write on_data test pass (finish write on_data s i w)
  unfolding finish results tally_results
  finish-IsDelivered s i (working x) here ok = elim (Option-cases (on_data x)) [
    | inl failed ↦
        rw (failed, finish)
          (done-IsDelivered s i x starting here refl
            (if_cases (λ l. 0 ≡ tally_results write on_data test pass l) write _ _
              (λ _. rw (failed, results) refl) λ _. refl)
            ok)
    | inr (y, done) ↦
        rw (done, finish)
          (if_cases
            (λ (next : Worker T Y).
              IsDelivered write on_data test pass
                (record s { workers = set s.workers i next; handled = s.handled ++ x ∷ [] }))
            write _ _
            (λ on.
              done-IsDelivered s i x (pushing y) here refl (rw (on, done, results) (omega arith))
                ok)
            λ off. done-IsDelivered s i x starting here refl (rw off refl) ok)
  ]
  finish-IsDelivered s i w here ok = ok

  close-IsDelivered :
      (s : Iterator T Y)
      → IsDelivered write on_data test pass s
      → IsDelivered write on_data test pass (close s)
  unfolding close in_hands results_in_hands
  close-IsDelivered s ok =
      if_cases (IsDelivered write on_data test pass) s.is_stopped _ _
        (λ set_already. record {
          balance = ok.balance;
          flag = λ _. set_already;
          calm = ok.calm;
          passed_on = ok.passed_on;
        })
        λ _. ok

  turn-IsDelivered :
      (s : Iterator T Y) (e : Event T)
      → IsDelivered write on_data test pass s
      → IsDelivered write on_data test pass (turn write on_data s e)
  unfolding turn in_hands results_in_hands tally
  turn-IsDelivered s (push x) ok = record {
    balance = omega (arith, ok.balance, total-append (λ z. one_when (test z)) s.waiting (x ∷ []));
    flag = ok.flag;
    calm = ok.calm;
    passed_on = ok.passed_on;
  }
  turn-IsDelivered s set_flag ok = record {
    balance = ok.balance;
    flag = λ _. refl;
    calm = λ e. absurd (cc e);
    passed_on = ok.passed_on;
  }
  turn-IsDelivered s close_channel ok = close-IsDelivered s ok
  turn-IsDelivered s cancel_context ok = record {
    balance = ok.balance;
    flag = ok.flag;
    calm = ok.calm;
    passed_on = ok.passed_on;
  }
  turn-IsDelivered s (enter_recv i) ok =
      with_worker-IsDelivered write on_data test pass s i _
        (λ w here. begin_recv-IsDelivered write on_data test pass s i w here ok) ok
  turn-IsDelivered s (takes i k) ok =
      with_worker-IsDelivered write on_data test pass s i _
        (λ w here. take_push-IsDelivered write on_data test pass s i k w _ here refl ok) ok
  turn-IsDelivered s (wakes i) ok =
      with_worker-IsDelivered write on_data test pass s i _
        (λ w here. wake-IsDelivered write on_data test pass s i w here ok) ok
  turn-IsDelivered s (checks i) ok =
      with_worker-IsDelivered write on_data test pass s i _
        (λ w here. check_stopped-IsDelivered write on_data test pass s i w here ok) ok
  turn-IsDelivered s (finishes i) ok =
      with_worker-IsDelivered write on_data test pass s i _
        (λ w here. finish-IsDelivered s i w here ok) ok
  turn-IsDelivered s (pushes_result i) ok =
      with_worker-IsDelivered write on_data test pass s i _
        (λ w here. push_result-IsDelivered write on_data test pass s i w here ok) ok
  turn-IsDelivered s (gives_up k) ok = release-IsDelivered write on_data test pass s k _ refl ok

  run-IsDelivered :
      (s : Iterator T Y) (es : List (Event T))
      → IsDelivered write on_data test pass s
      → IsDelivered write on_data test pass (run write on_data s es)
  unfolding run
  run-IsDelivered s [] ok = ok
  run-IsDelivered s (e ∷ es) ok =
      run-IsDelivered (turn write on_data s e) es (turn-IsDelivered s e ok)

  none_held : (n : ℕ) → total (held write on_data test pass) (replicate n starting) ≡ 0
  none_held zero = refl
  none_held (suc n) = omega (arith, none_held n)

  no_result_held : (n : ℕ) → total (held_result write on_data test pass) (replicate n starting) ≡ 0
  no_result_held zero = refl
  no_result_held (suc n) = omega (arith, no_result_held n)

  nothing_kept : tally_results write on_data test pass (kept write on_data []) ≡ 0
  unfolding results tally_results
  nothing_kept =
      if_cases {A = List Y} (λ l. tally_results write on_data test pass l ≡ 0) write _ _ (λ _. refl)
        λ _. refl

  new_iterator-IsDelivered :
      (threads : ℕ) → IsDelivered write on_data test pass (new_iterator threads)
  unfolding new_iterator in_hands results_in_hands tally tally_results results
  new_iterator-IsDelivered threads = record {
    balance = omega (arith, none_held threads);
    flag = λ e. cc e;
    calm = λ _. (refl, refl);
    passed_on = omega (arith, no_result_held threads, nothing_kept);
  }

  -- However pushes, workers, the end of their context and Stop mix, the items that were pushed are
  -- exactly those that OnData is done with, those that still wait or that a worker holds, and those
  -- that Stop has cost: for any test of items, as many of them pass it. Stop costs the pushes that it
  -- releases and the items that a worker took too late; before Stop there are none. If the runner
  -- writes, each result that is no error goes into one call of Push on the next iterator: as many
  -- pass any test in the calls that have returned and those under way.
  pub run-delivered_items :
      (threads : ℕ) (es : List (Event T))
      → let s = run write on_data (new_iterator threads) es in
        (tally write on_data test pass s.accepted
          ≡ ((tally write on_data test pass s.handled + tally write on_data test pass s.released)
              + tally write on_data test pass s.lost)
            + (tally write on_data test pass s.waiting + in_hands write on_data test pass s))
        × (((s.released ≡ []) × (s.lost ≡ []) ⊎ (s.is_stopped ≡ true))
            × (tally_results write on_data test pass s.results
                  + results_in_hands write on_data test pass s
                ≡ tally_results write on_data test pass (kept write on_data s.handled)))
  run-delivered_items threads es =
      let s = run write on_data (new_iterator threads) es in
      let ok = run-IsDelivered (new_iterator threads) es (new_iterator-IsDelivered threads) in
      (
        ok.balance,
        (
          elim (Bool-cases s.is_stopped) [
            | inl set_already ↦ inr set_already
            | inr open_still ↦ inl (ok.calm open_still)
          ],
          ok.passed_on,
        ),
      )
