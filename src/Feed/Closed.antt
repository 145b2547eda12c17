-- ===== src/Feed/Closed.antt =====
-- The channels of a feed of crawler/events are closed with care.
use node_util.Base.{
  ℕ, zero, suc, ◌+◌, ◌-◌, ◌%◌, ◌^◌, ◌∙◌, ◌≤◌, ◌≡◌, ◌≢◌, refl, false, inl, inr, Bool-cases,
  Option-cases, List, [], ◌∷◌, map, none, some, arith, ◌==◌, get_elem?, set, count, count-append,
  one_when, All, All-map, All-set, All-get_elem?, All-append,
}
use node_util.Feed.{
  Listener, Sender, Feed, find_listener, put, remove, holds, remove_at, ids_of, new_feed, subscribe,
  close_channel, unsubscribe, close_all, stop, stop_locked, send, start_sender, send_to,
  step_sender, end_sender, Event, subscribe_event, unsubscribe_event, stop_event, lock_event,
  send_event, start_event, step_event, end_event, locked, turn, run,
}

abbrev pub channels_of : List Listener → List ℕ
channels_of = map (λ l. l.channel)

-- The channels that callers subscribe with.
abbrev pub channels_in : {T : Type 0} → List (Event T) → List ℕ
channels_in [] = []
channels_in (subscribe_event id c ∷ es) = c ∷ channels_in es
channels_in (e ∷ es) = channels_in es

abbrev pub Has : List Listener → ℕ → Type 0
Has ls id = find_listener id ls ≢ none

count-holds : (c : ℕ) (xs : List ℕ) → count c xs ≡ 0 → holds c xs ≡ false
count-holds c [] h = refl
count-holds c (x ∷ xs) h = ground (arith, count-holds c xs)

count-put :
    (c : ℕ) (l : Listener) (ls : List Listener)
    → count c (channels_of (put l ls)) ≤ one_when (c == l.channel) + count c (channels_of ls)
unfolding put
count-put c l [] = omega arith
count-put c l (x ∷ xs) = ground (arith, count-put c l xs)

pub count-remove :
    (c id : ℕ) (ls : List Listener) (l : Listener)
    → find_listener id ls ≡ some l
    → count c (channels_of (remove id ls)) + one_when (c == l.channel) ≡ count c (channels_of ls)
unfolding remove
count-remove c id [] l h = cc
count-remove c id (x ∷ xs) l h = ground (arith, count-remove c id xs l)

pub remove_at-All {ℓ κ} :
    {A : Type ℓ} (P : A → Type κ) (xs : List A) (i : ℕ) → All P xs → All P (remove_at xs i)
remove_at-All P [] i h = tt
remove_at-All P (x ∷ xs) zero h = h.1
remove_at-All P (x ∷ xs) (suc i) h = (h.0, remove_at-All P xs i h.1)

Has-later : (x : Listener) (ls : List Listener) (id : ℕ) → Has ls id → Has (x ∷ ls) id
Has-later x ls id h e = ground (arith, h)

ids_of-Has : (ls : List Listener) → All (Has ls) (ids_of ls)
ids_of-Has [] = tt
ids_of-Has (x ∷ xs) = (λ e. ground arith, All-map (Has-later x xs) (ids_of xs) (ids_of-Has xs))

-- A channel that counts for both the closed and the open ones would count twice.
fresh_head :
    (closed rest : List ℕ) (x : ℕ)
    → ((c : ℕ) → count c closed + count c (x ∷ rest) ≤ 1)
    → count x closed ≡ 0
fresh_head closed rest x h = let at_x = h x in ground arith

module _ {T : Type 0} where
  pub locked_cases {κ} :
      (P : Feed T → Type κ) (f g : Feed T) → P f → (f.senders ≡ [] → P g) → P (locked f g)
  locked_cases P f g stays goes =
      (elim f.senders as (λ ss. (ss ≡ [] → P g) → P (elim ss [ [] ↦ g | u ∷ us ↦ f ])) [
        | [] ↦ λ k. k refl
        | u ∷ us ↦ λ k. stays
      ])
        goes

  -- `rest` are the channels that are still to come.
  pub record IsClean (f : Feed T) (rest : List ℕ) : Type 0 where
    pub once : (c : ℕ) → count c f.closed + count c (channels_of f.listeners) + count c rest ≤ 1
    pub calm : f.panics ≡ false
    pub present : All (λ (s : Sender T). All (Has f.listeners) s.left) f.senders

  close_calm :
      (f : Feed T) (l : Listener)
      → f.panics ≡ false
      → count l.channel f.closed ≡ 0
      → (close_channel f l).panics ≡ false
  unfolding close_channel
  close_calm f l calm fresh = ground (arith, count-holds l.channel f.closed)

  pub close_channel_keeps :
      (f : Feed T) (l : Listener)
      → ((close_channel f l).listeners ≡ f.listeners) × ((close_channel f l).senders ≡ f.senders)
  unfolding close_channel
  close_channel_keeps f l = (ground arith, ground arith)

  pub close_all_keeps : (f : Feed T) (ls : List Listener) → (close_all f ls).senders ≡ f.senders
  unfolding close_all
  close_all_keeps f [] = refl
  close_all_keeps f (l ∷ ls) = close_all_keeps (close_channel f l) ls ∙ (close_channel_keeps f l).1

  count-close_channel :
      (c : ℕ) (f : Feed T) (l : Listener)
      → count c (close_channel f l).closed ≤ count c f.closed + one_when (c == l.channel)
  unfolding close_channel
  count-close_channel c f l = ground (arith, count-append c f.closed (l.channel ∷ []))

  count-close_all :
      (c : ℕ) (f : Feed T) (ls : List Listener)
      → count c (close_all f ls).closed ≤ count c f.closed + count c (channels_of ls)
  unfolding close_all
  count-close_all c f [] = omega arith
  count-close_all c f (l ∷ ls) =
      omega (arith, count-close_channel c f l, count-close_all c (close_channel f l) ls)

  close_all_calm :
      (f : Feed T) (ls : List Listener)
      → f.panics ≡ false
      → ((c : ℕ) → count c f.closed + count c (channels_of ls) ≤ 1)
      → (close_all f ls).panics ≡ false
  unfolding close_all
  close_all_calm f [] calm h = calm
  close_all_calm f (l ∷ ls) calm h =
      close_all_calm (close_channel f l) ls
        (close_calm f l calm (fresh_head f.closed (channels_of ls) l.channel h))
        (λ c. let at_c = h c in let closes = count-close_channel c f l in omega arith)

  subscribe-IsClean :
      (f : Feed T) (id c : ℕ) (rest : List ℕ)
      → f.senders ≡ []
      → IsClean f (c ∷ rest)
      → IsClean (subscribe f id c) rest
  unfolding subscribe
  subscribe-IsClean f id c rest free ok = record {
    once = λ x.
        let at_x = ok.once x in
        let puts = count-put x (record { id = id; channel = c; done = false }) f.listeners in
        ground arith;
    calm = ground (arith, ok.calm);
    present = elim (Bool-cases f.is_stopped) [ inl e ↦ rw (e, free) tt | inr e ↦ rw (e, free) tt ];
  }

  unsubscribe-IsClean :
      (f : Feed T) (id : ℕ) (rest : List ℕ)
      → f.senders ≡ []
      → IsClean f rest
      → IsClean (unsubscribe f id) rest
  unfolding unsubscribe
  unsubscribe-IsClean f id rest free ok = elim (Option-cases (find_listener id f.listeners)) [
    | inl none_there ↦ rw (none_there, unsubscribe) ok
    | inr (l, found) ↦
        let g = record f {
          subs = (f.subs + 2 ^ 32 - 1) % 2 ^ 32;
          listeners = remove id f.listeners;
        } in
        let removed = λ (c : ℕ). count-remove c id f.listeners l found in
        let fresh : count l.channel f.closed ≡ 0 =
          let at_l = ok.once l.channel in let less = removed l.channel in ground arith in
        rw (found, unsubscribe)
          (record {
            once = λ c.
                let at_c = ok.once c in
                let less = removed c in
                let closes = count-close_channel c g l in
                rw (close_channel_keeps g l).0 (omega arith);
            calm = close_calm g l ok.calm fresh;
            present = rw ((close_channel_keeps g l).1, free) tt;
          })
  ]

  release-IsClean :
      (f : Feed T) (rest : List ℕ)
      → f.senders ≡ []
      → IsClean f rest
      → IsClean (record (close_all f f.listeners) { listeners = []; is_stopping = false }) rest
  release-IsClean f rest free ok = record {
    once = λ c. let at_c = ok.once c in let closes = count-close_all c f f.listeners in omega arith;
    calm = close_all_calm f f.listeners ok.calm (λ c. let at_c = ok.once c in omega arith);
    present = rw (close_all_keeps f f.listeners, free) tt;
  }

  stop_locked-IsClean :
      (f : Feed T) (rest : List ℕ) → f.senders ≡ [] → IsClean f rest → IsClean (stop_locked f) rest
  unfolding stop_locked
  stop_locked-IsClean f rest free ok = elim (Bool-cases f.is_stopping) [
    | inr e ↦ simp e ok
    | inl e ↦ simp e (release-IsClean f rest free ok)
  ]

  stop-IsClean : (f : Feed T) (rest : List ℕ) → IsClean f rest → IsClean (stop f) rest
  unfolding stop
  stop-IsClean f rest ok = elim (Bool-cases f.is_stopped) [
    | inl e ↦ simp e ok
    | inr e ↦ simp e (record { once = ok.once; calm = ok.calm; present = ok.present })
  ]

  send-IsClean : (f : Feed T) (m : T) (rest : List ℕ) → IsClean f rest → IsClean (send f m) rest
  unfolding send
  send-IsClean f m rest ok = elim (Bool-cases (f.subs == 0)) [
    | inl e ↦ rw e ok
    | inr e ↦ rw e (record { once = ok.once; calm = ok.calm; present = ok.present })
  ]

  start_sender-IsClean :
      (f : Feed T) (i : ℕ) (rest : List ℕ) → IsClean f rest → IsClean (start_sender f i) rest
  unfolding start_sender
  start_sender-IsClean f i rest ok = elim (Option-cases (get_elem? f.waiting i)) [
    | inl e ↦ rw (e, start_sender) ok
    | inr (m, e) ↦
        rw (e, start_sender)
          (record {
            once = ok.once;
            calm = ok.calm;
            present =
                All-append (λ (s : Sender T). All (Has f.listeners) s.left) f.senders
                  (record { message = m; left = ids_of f.listeners } ∷ []) ok.present
                  (ids_of-Has f.listeners, tt);
          })
  ]

  send_to-IsClean :
      (f : Feed T) (m : T) (id : ℕ) (rest : List ℕ)
      → Has f.listeners id
      → IsClean f rest
      → IsClean (send_to f m id) rest
  unfolding send_to
  send_to-IsClean f m id rest there ok = elim (Option-cases (find_listener id f.listeners)) [
    | inl none_there ↦ absurd (there none_there)
    | inr (l, found) ↦
        let fresh : count l.channel f.closed ≡ 0 =
          let at_l = ok.once l.channel in
          let less = count-remove l.channel id f.listeners l found in ground arith in
        let unclosed = count-holds l.channel f.closed fresh in
        elim (Bool-cases l.done) [
          | inl e ↦ rw (found, send_to, e) ok
          | inr e ↦
              rw (found, send_to, e)
                (record { once = ok.once; calm = ground (arith, ok.calm); present = ok.present })
        ]
  ]

  step_sender-IsClean :
      (f : Feed T) (j k : ℕ) (rest : List ℕ) → IsClean f rest → IsClean (step_sender f j k) rest
  unfolding step_sender
  step_sender-IsClean f j k rest ok = elim (Option-cases (get_elem? f.senders j)) [
    | inl e ↦ rw (e, step_sender) ok
    | inr (s, at_j) ↦ elim (Option-cases (get_elem? s.left k)) [
      | inl e ↦ rw (at_j, step_sender, e) ok
      | inr (id, at_k) ↦
          let holds_all =
            All-get_elem? (λ (u : Sender T). All (Has f.listeners) u.left) f.senders j s ok.present
              at_j in
          let next = record s { left = remove_at s.left k } in
          let g = record f { senders = set f.senders j next } in
          rw (at_j, step_sender, at_k)
            (send_to-IsClean g s.message id rest
              (All-get_elem? (Has f.listeners) s.left k id holds_all at_k)
              (record {
                once = ok.once;
                calm = ok.calm;
                present =
                    All-set (λ (u : Sender T). All (Has f.listeners) u.left) f.senders j next
                      ok.present (remove_at-All (Has f.listeners) s.left k holds_all);
              }))
    ]
  ]

  end_sender-IsClean :
      (f : Feed T) (j : ℕ) (rest : List ℕ) → IsClean f rest → IsClean (end_sender f j) rest
  unfolding end_sender
  end_sender-IsClean f j rest ok = elim (Option-cases (get_elem? f.senders j)) [
    | inl e ↦ rw (e, end_sender) ok
    | inr (s, e) ↦
        let gone =
          remove_at-All (λ (u : Sender T). All (Has f.listeners) u.left) f.senders j ok.present in
        rw (e, end_sender)
          (elim s.left
            as (λ ids.
              IsClean (elim ids [ [] ↦ record f { senders = remove_at f.senders j } | i ∷ is ↦ f ])
                rest) [
                  | [] ↦ record { once = ok.once; calm = ok.calm; present = gone }
                  | i ∷ is ↦ ok
                ])
  ]

  -- A channel less to come.
  tail-IsClean : (f : Feed T) (c : ℕ) (rest : List ℕ) → IsClean f (c ∷ rest) → IsClean f rest
  tail-IsClean f c rest ok = record {
    once = λ x. let at_x = ok.once x in omega arith;
    calm = ok.calm;
    present = ok.present;
  }

  run-IsClean' :
      (es : List (Event T)) (f : Feed T) → IsClean f (channels_in es) → IsClean (run f es) []
  unfolding run turn
  run-IsClean' [] f ok = ok
  run-IsClean' (subscribe_event id c ∷ es) f ok = run-IsClean' es (turn f (subscribe_event id c)) (
      locked_cases (λ h. IsClean h (channels_in es)) f (subscribe f id c)
        (tail-IsClean f c (channels_in es) ok)
        (λ free. subscribe-IsClean f id c (channels_in es) free ok))
  run-IsClean' (unsubscribe_event id ∷ es) f ok = run-IsClean' es (turn f (unsubscribe_event id)) (
      locked_cases (λ h. IsClean h (channels_in es)) f (unsubscribe f id) ok
        (λ free. unsubscribe-IsClean f id (channels_in es) free ok))
  run-IsClean' (stop_event ∷ es) f ok =
      run-IsClean' es (turn f stop_event) (stop-IsClean f (channels_in es) ok)
  run-IsClean' (lock_event ∷ es) f ok = run-IsClean' es (turn f lock_event) (
      locked_cases (λ h. IsClean h (channels_in es)) f (stop_locked f) ok
        (λ free. stop_locked-IsClean f (channels_in es) free ok))
  run-IsClean' (send_event m ∷ es) f ok =
      run-IsClean' es (turn f (send_event m)) (send-IsClean f m (channels_in es) ok)
  run-IsClean' (start_event i ∷ es) f ok =
      run-IsClean' es (turn f (start_event i)) (start_sender-IsClean f i (channels_in es) ok)
  run-IsClean' (step_event j k ∷ es) f ok =
      run-IsClean' es (turn f (step_event j k)) (step_sender-IsClean f j k (channels_in es) ok)
  run-IsClean' (end_event j ∷ es) f ok =
      run-IsClean' es (turn f (end_event j)) (end_sender-IsClean f j (channels_in es) ok)

  -- If callers never subscribe with the same channel twice, then however subscriptions, their ends,
  -- senders and Stop mix, no message is sent to a closed channel, no channel is closed twice, and no
  -- sender misses an entry of the map.
  pub run-calm :
      (es : List (Event T))
      → ((c : ℕ) → count c (channels_in es) ≤ 1)
      → ((run new_feed es).panics ≡ false) × ((c : ℕ) → count c (run new_feed es).closed ≤ 1)
  unfolding new_feed
  run-calm es once =
      let ok =
        run-IsClean' es new_feed
          (record { once = λ c. let at_c = once c in omega arith; calm = refl; present = tt }) in
      (ok.calm, λ c. let at_c = ok.once c in omega arith)
