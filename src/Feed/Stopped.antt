-- ===== src/Feed/Stopped.antt =====
-- What Stop of crawler/events/feed.go leaves: every channel closed, and no message after it.
use node_util.Base.{
  ℕ, ◌∙◌, ◌≤◌, ◌≡◌, refl, sym, true, false, inl, inr, Bool-cases, Option-cases, List, [], ◌∷◌, none,
  arith, ◌==◌, get_elem?, count, All, All-get_elem?, All-append,
}
use node_util.Feed.{
  Sender, Feed, find_listener, ids_of, new_feed, subscribe, close_channel, unsubscribe, stop,
  stop_locked, send, start_sender, send_to, step_sender, end_sender, Event, subscribe_event,
  unsubscribe_event, stop_event, lock_event, send_event, start_event, step_event, end_event, turn,
  run,
}
use node_util.Feed.Closed.{locked_cases, close_all_keeps, channels_of, remove_at-All}
use node_util.Feed.Account.{ids_in, IsOwned, accepted, run_total}

module _ {T : Type 0} where
  abbrev IsSpent : Sender T → Type 0
  IsSpent s = s.left ≡ []

  -- A feed for which Stop is over.
  pub record IsOver (f : Feed T) : Type 0 where
    pub marked : f.is_stopped ≡ true
    pub idle : f.is_stopping ≡ false
    pub listeners : f.listeners ≡ []
    pub spent : All IsSpent f.senders

  unsubscribe-IsOver : (f : Feed T) (id : ℕ) → IsOver f → IsOver (unsubscribe f id)
  unfolding unsubscribe
  unsubscribe-IsOver f id ok =
      let absent : find_listener id f.listeners ≡ none = rw ok.listeners refl in
      rw (absent, unsubscribe) ok

  send-IsOver : (f : Feed T) (m : T) → IsOver f → IsOver (send f m)
  unfolding send
  send-IsOver f m ok = elim (Bool-cases (f.subs == 0)) [
    | inl e ↦ rw e ok
    | inr e ↦
        rw e (record {
          marked = ok.marked;
          idle = ok.idle;
          listeners = ok.listeners;
          spent = ok.spent;
        })
  ]

  start_sender-IsOver : (f : Feed T) (i : ℕ) → IsOver f → IsOver (start_sender f i)
  unfolding start_sender
  start_sender-IsOver f i ok = elim (Option-cases (get_elem? f.waiting i)) [
    | inl e ↦ rw (e, start_sender) ok
    | inr (m, e) ↦
        rw (e, start_sender)
          (record {
            marked = ok.marked;
            idle = ok.idle;
            listeners = ok.listeners;
            spent =
                All-append IsSpent f.senders
                  (record { message = m; left = ids_of f.listeners } ∷ []) ok.spent
                  (rw ok.listeners (refl, tt));
          })
  ]

  -- No sender has a listener left.
  over_step : (f : Feed T) (j k : ℕ) → IsOver f → step_sender f j k ≡ f
  unfolding step_sender
  over_step f j k ok = elim (Option-cases (get_elem? f.senders j)) [
    | inl e ↦ rw (e, step_sender) refl
    | inr (s, e) ↦
        let spent = All-get_elem? IsSpent f.senders j s ok.spent e in
        let none_left : get_elem? s.left k ≡ none = rw spent refl in
        rw (e, step_sender, none_left) refl
  ]

  end_sender-IsOver : (f : Feed T) (j : ℕ) → IsOver f → IsOver (end_sender f j)
  unfolding end_sender
  end_sender-IsOver f j ok = elim (Option-cases (get_elem? f.senders j)) [
    | inl e ↦ rw (e, end_sender) ok
    | inr (s, e) ↦
        let spent = All-get_elem? IsSpent f.senders j s ok.spent e in
        rw (e, end_sender, spent)
          (record {
            marked = ok.marked;
            idle = ok.idle;
            listeners = ok.listeners;
            spent = remove_at-All IsSpent f.senders j ok.spent;
          })
  ]

  turn-IsOver : (f : Feed T) (e : Event T) → IsOver f → IsOver (turn f e)
  unfolding turn subscribe stop stop_locked
  turn-IsOver f (subscribe_event id c) ok =
      locked_cases IsOver f (subscribe f id c) ok (λ free. simp ok.marked ok)
  turn-IsOver f (unsubscribe_event id) ok =
      locked_cases IsOver f (unsubscribe f id) ok (λ free. unsubscribe-IsOver f id ok)
  turn-IsOver f stop_event ok = simp ok.marked ok
  turn-IsOver f lock_event ok = locked_cases IsOver f (stop_locked f) ok (λ free. simp ok.idle ok)
  turn-IsOver f (send_event m) ok = send-IsOver f m ok
  turn-IsOver f (start_event i) ok = start_sender-IsOver f i ok
  turn-IsOver f (step_event j k) ok = rw (over_step f j k ok) ok
  turn-IsOver f (end_event j) ok = end_sender-IsOver f j ok

  over_sent : (f : Feed T) (e : Event T) → IsOver f → (turn f e).sent ≡ f.sent
  unfolding turn subscribe unsubscribe close_channel stop send start_sender end_sender
  over_sent f (subscribe_event id c) ok =
      locked_cases (λ g. g.sent ≡ f.sent) f (subscribe f id c) refl (λ free. ground arith)
  over_sent f (unsubscribe_event id) ok =
      locked_cases (λ g. g.sent ≡ f.sent) f (unsubscribe f id) refl (λ free. ground arith)
  over_sent f stop_event ok = ground arith
  over_sent f lock_event ok =
      locked_cases (λ g. g.sent ≡ f.sent) f (stop_locked f) refl
        (λ free. rw (stop_locked, ok.idle) refl)
  over_sent f (send_event m) ok = ground arith
  over_sent f (start_event i) ok = ground arith
  over_sent f (step_event j k) ok = rw (over_step f j k ok) refl
  over_sent f (end_event j) ok = ground arith

  -- Once Stop has set its flag, it is over or waits for the lock.
  abbrev IsSettled : Feed T → Type 0
  IsSettled f = f.is_stopped ≡ true → f.is_stopping ≡ false → IsOver f

  abbrev HasSameFlags : Feed T → Feed T → Type 0
  HasSameFlags f g = (g.is_stopped ≡ f.is_stopped) × (g.is_stopping ≡ f.is_stopping)

  from_flags :
      (f : Feed T) (e : Event T) → HasSameFlags f (turn f e) → IsSettled f → IsSettled (turn f e)
  from_flags f e same ok marked idle =
      turn-IsOver f e (ok (sym same.0 ∙ marked) (sym same.1 ∙ idle))

  stop-IsSettled : (f : Feed T) → IsSettled f → IsSettled (stop f)
  unfolding stop
  stop-IsSettled f ok = elim (Bool-cases f.is_stopped) [
    | inl e ↦ simp e (λ marked idle. ok e idle)
    | inr e ↦ simp e (λ marked idle. cc)
  ]

  stop_locked-IsSettled : (f : Feed T) → f.senders ≡ [] → IsSettled f → IsSettled (stop_locked f)
  unfolding stop_locked
  stop_locked-IsSettled f free ok = elim (Bool-cases f.is_stopping) [
    | inr e ↦ simp e (λ marked idle. ok marked e)
    | inl e ↦ simp e (λ marked idle. record {
      marked = marked;
      idle = refl;
      listeners = refl;
      spent = rw (close_all_keeps f f.listeners, free) tt;
    })
  ]

  turn-IsSettled : (f : Feed T) (e : Event T) → IsSettled f → IsSettled (turn f e)
  unfolding turn subscribe unsubscribe close_channel send start_sender step_sender send_to
      end_sender
  turn-IsSettled f (subscribe_event id c) ok =
      from_flags f (subscribe_event id c)
        (locked_cases (HasSameFlags f) f (subscribe f id c) (refl, refl)
          (λ free. (ground arith, ground arith)))
        ok
  turn-IsSettled f (unsubscribe_event id) ok =
      from_flags f (unsubscribe_event id)
        (locked_cases (HasSameFlags f) f (unsubscribe f id) (refl, refl)
          (λ free. (ground arith, ground arith)))
        ok
  turn-IsSettled f stop_event ok = stop-IsSettled f ok
  turn-IsSettled f lock_event ok =
      locked_cases IsSettled f (stop_locked f) ok (λ free. stop_locked-IsSettled f free ok)
  turn-IsSettled f (send_event m) ok = from_flags f (send_event m) (ground arith, ground arith) ok
  turn-IsSettled f (start_event i) ok = from_flags f (start_event i) (ground arith, ground arith) ok
  turn-IsSettled f (step_event j k) ok =
      from_flags f (step_event j k) (ground arith, ground arith) ok
  turn-IsSettled f (end_event j) ok = from_flags f (end_event j) (ground arith, ground arith) ok

  run-IsSettled : (es : List (Event T)) (f : Feed T) → IsSettled f → IsSettled (run f es)
  unfolding run
  run-IsSettled [] f ok = ok
  run-IsSettled (e ∷ es) f ok = run-IsSettled es (turn f e) (turn-IsSettled f e ok)

  over_run : (es : List (Event T)) (f : Feed T) → IsOver f → (run f es).sent ≡ f.sent
  unfolding run
  over_run [] f ok = refl
  over_run (e ∷ es) f ok = over_run es (turn f e) (turn-IsOver f e ok) ∙ over_sent f e ok

  -- If no ID is given to two callers of Subscribe, then as soon as Stop has had the lock, each
  -- channel that the feed has accepted is closed, as often as it was accepted, and whatever happens
  -- from then on, nothing more is sent.
  pub run-stopped :
      (es later : List (Event T)) (c : ℕ)
      → ((i : ℕ) → count i (ids_in es) ≤ 1)
      → (run new_feed es).is_stopped ≡ true
      → (run new_feed es).is_stopping ≡ false
      → (count c (run new_feed es).closed ≡ count c (accepted new_feed es))
        × ((run (run new_feed es) later).sent ≡ (run new_feed es).sent)
  unfolding new_feed
  run-stopped es later c once marked idle =
      let f = run new_feed es in
      let over = run-IsSettled es new_feed (λ m i. cc) marked idle in
      let owned : IsOwned {T = T} new_feed (ids_in es) = record {
        ids = λ i. let at_i = once i in omega arith;
        open_all = tt;
      } in
      let kept = run_total c es new_feed owned in
      let empty : count c (channels_of f.listeners) ≡ 0 = rw over.listeners refl in
      (omega (arith, kept, empty), over_run later f over)
