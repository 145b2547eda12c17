-- ===== src/Runner/Iterator/Moves.antt =====
-- The account of the items that are pushed into an iterator of crawler/crawler/iterator.go, and the
-- steps of Next, Stopped and Push that keep it.
use node_util.Base.{
  ℕ, ◌+◌, ◌≡◌, refl, Bool, true, false, List, [], Option, none, some, arith, one_when, get_elem?,
  total, total-append, ◌∷◌, total-set, total-remove_nth, if_cases,
}
use node_util.Runner.{stopped}
use node_util.Runner.Pushed.{kept}
use node_util.Runner.Iterator.{
  Worker, starting, in_next, checking, working, pushing, ended, Iterator, put_worker, begin_recv,
  take_push, wake, check_stopped, release, push_result, with_worker,
}

module _ {T Y : Type 0} (write : Bool) (on_data : T → Option Y) (test : T → Bool)
    (pass : Y → Bool) where
  unfoldable pub tally : List T → ℕ
  tally = total (λ x. one_when (test x))

  abbrev pub held : Worker T Y → ℕ
  held (checking (some x)) = one_when (test x)
  held (working x) = one_when (test x)
  held _ = 0

  -- What the workers have between Next and the end of OnData.
  unfoldable pub in_hands : Iterator T Y → ℕ
  in_hands s = total held s.workers

  unfoldable pub tally_results : List Y → ℕ
  tally_results = total (λ y. one_when (pass y))

  abbrev pub held_result : Worker T Y → ℕ
  held_result (pushing y) = one_when (pass y)
  held_result _ = 0

  -- What the workers have in Push on the next iterator.
  unfoldable pub results_in_hands : Iterator T Y → ℕ
  results_in_hands s = total held_result s.workers

  pub record IsDelivered (s : Iterator T Y) : Type 0 where
    pub balance :
        tally s.accepted
        ≡ ((tally s.handled + tally s.released) + tally s.lost) + (tally s.waiting + in_hands s)
    pub flag : s.is_closed ≡ true → s.is_stopped ≡ true
    pub calm : s.is_stopped ≡ false → (s.released ≡ []) × (s.lost ≡ [])
    pub passed_on :
        tally_results s.results + results_in_hands s ≡ tally_results (kept write on_data s.handled)

  -- A worker moves on with what it has.
  pub move-IsDelivered :
      (s : Iterator T Y) (i : ℕ) (w v : Worker T Y)
      → get_elem? s.workers i ≡ some w
      → held v ≡ held w
      → held_result v ≡ held_result w
      → IsDelivered s
      → IsDelivered (put_worker s i v)
  unfolding in_hands results_in_hands
  move-IsDelivered s i w v here same alike ok = record {
    balance = omega (arith, ok.balance, total-set held s.workers i w v here, same);
    flag = ok.flag;
    calm = ok.calm;
    passed_on = omega (arith, ok.passed_on, total-set held_result s.workers i w v here, alike);
  }

  pub with_worker-IsDelivered :
      (s : Iterator T Y) (i : ℕ) (f : Worker T Y → Iterator T Y)
      → ((w : Worker T Y) → get_elem? s.workers i ≡ some w → IsDelivered (f w))
      → IsDelivered s
      → IsDelivered (with_worker s i f)
  with_worker-IsDelivered s i f good ok = with_found (get_elem? s.workers i) refl
    where
      with_found :
          (found : Option (Worker T Y))
          → get_elem? s.workers i ≡ found
          → IsDelivered (elim found [ none ↦ s | some w ↦ f w ])
      with_found none _ = ok
      with_found (some w) here = good w here

  pub begin_recv-IsDelivered :
      (s : Iterator T Y) (i : ℕ) (w : Worker T Y)
      → get_elem? s.workers i ≡ some w
      → IsDelivered s
      → IsDelivered (begin_recv s i w)
  unfolding begin_recv
  begin_recv-IsDelivered s i starting here ok =
      if_cases IsDelivered s.is_done _ _ (λ _. move-IsDelivered s i starting _ here refl refl ok)
        λ _. move-IsDelivered s i starting _ here refl refl ok
  begin_recv-IsDelivered s i w here ok = ok

  pub take_push-IsDelivered :
      (s : Iterator T Y) (i k : ℕ) (w : Worker T Y) (o : Option T)
      → get_elem? s.workers i ≡ some w
      → get_elem? s.waiting k ≡ o
      → IsDelivered s
      → IsDelivered (take_push s i k w o)
  unfolding take_push in_hands results_in_hands tally
  take_push-IsDelivered s i k in_next (some x) here there ok = record {
    balance = omega (
      arith,
      ok.balance,
      total-set held s.workers i in_next (checking (some x)) here,
      total-remove_nth (λ z. one_when (test z)) s.waiting k x there,
    );
    flag = ok.flag;
    calm = ok.calm;
    passed_on =
        omega
          (arith, ok.passed_on, total-set held_result s.workers i in_next (checking (some x)) here);
  }
  take_push-IsDelivered s i k w o here there ok = ok

  pub wake-IsDelivered :
      (s : Iterator T Y) (i : ℕ) (w : Worker T Y)
      → get_elem? s.workers i ≡ some w
      → IsDelivered s
      → IsDelivered (wake s i w)
  unfolding wake
  wake-IsDelivered s i in_next here ok =
      if_cases IsDelivered s.is_closed _ _ (λ _. move-IsDelivered s i in_next _ here refl refl ok)
        λ _. ok
  wake-IsDelivered s i w here ok = ok

  pub check_stopped-IsDelivered :
      (s : Iterator T Y) (i : ℕ) (w : Worker T Y)
      → get_elem? s.workers i ≡ some w
      → IsDelivered s
      → IsDelivered (check_stopped s i w)
  unfolding check_stopped in_hands results_in_hands tally
  check_stopped-IsDelivered s i (checking (some x)) here ok =
      if_cases IsDelivered s.is_stopped _ _
        (λ set_already. record {
          balance = omega (
            arith,
            ok.balance,
            total-set held s.workers i (checking (some x)) (ended stopped) here,
          );
          flag = ok.flag;
          calm = λ still_open. absurd (cc (set_already, still_open));
          passed_on = omega (
            arith,
            ok.passed_on,
            total-set held_result s.workers i (checking (some x)) (ended stopped) here,
          );
        })
        λ _. move-IsDelivered s i (checking (some x)) (working x) here refl refl ok
  check_stopped-IsDelivered s i (checking none) here ok =
      if_cases IsDelivered s.is_stopped _ _
        (λ _. move-IsDelivered s i (checking none) (ended stopped) here refl refl ok) λ _. ok
  check_stopped-IsDelivered s i w here ok = ok

  pub release-IsDelivered :
      (s : Iterator T Y) (k : ℕ) (o : Option T)
      → get_elem? s.waiting k ≡ o
      → IsDelivered s
      → IsDelivered (release s k o)
  unfolding release in_hands results_in_hands tally
  release-IsDelivered s k none there ok = ok
  release-IsDelivered s k (some x) there ok =
      if_cases IsDelivered s.is_closed _ _
        (λ shut. record {
          balance =
              omega
                (arith, ok.balance, total-remove_nth (λ z. one_when (test z)) s.waiting k x there);
          flag = ok.flag;
          calm = λ still_open. absurd (cc (ok.flag shut, still_open));
          passed_on = ok.passed_on;
        })
        λ _. ok

  pub push_result-IsDelivered :
      (s : Iterator T Y) (i : ℕ) (w : Worker T Y)
      → get_elem? s.workers i ≡ some w
      → IsDelivered s
      → IsDelivered (push_result s i w)
  unfolding push_result in_hands results_in_hands tally_results
  push_result-IsDelivered s i (pushing y) here ok = record {
    balance = omega (arith, ok.balance, total-set held s.workers i (pushing y) starting here);
    flag = ok.flag;
    calm = ok.calm;
    passed_on = omega (
      arith,
      ok.passed_on,
      total-set held_result s.workers i (pushing y) starting here,
      total-append (λ z. one_when (pass z)) s.results (y ∷ []),
    );
  }
  push_result-IsDelivered s i w here ok = ok
