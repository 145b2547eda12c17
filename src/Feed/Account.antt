-- ===== src/Feed/Account.antt =====
-- What becomes of the channels that Subscribe of crawler/events/feed.go accepts.
use node_util.Base.{
  ℕ, ◌+◌, ◌-◌, ◌%◌, ◌^◌, ◌≤◌, ◌≡◌, refl, false, inl, inr, Bool-cases, Option-cases, List, [], ◌∷◌,
  ◌++◌, some, arith, ◌==◌, if◌then◌else◌, count, count-append, one_when, All,
}
use node_util.Feed.{
  Listener, Feed, find_listener, put, remove, ids_of, subscribe, close_channel, unsubscribe,
  close_all, stop, stop_locked, send, start_sender, send_to, step_sender, end_sender, Event,
  subscribe_event, unsubscribe_event, stop_event, lock_event, send_event, start_event, step_event,
  end_event, turn, run,
}
use node_util.Feed.Closed.{locked_cases, channels_of, close_channel_keeps, count-remove}

-- The IDs that NewId gives to the callers of Subscribe.
abbrev pub ids_in : {T : Type 0} → List (Event T) → List ℕ
ids_in [] = []
ids_in (subscribe_event id c ∷ es) = id ∷ ids_in es
ids_in (e ∷ es) = ids_in es

module _ {T : Type 0} where
  -- The channels that Subscribe accepts: it has the lock and the feed is not stopped.
  abbrev pub accepted_one : Feed T → Event T → List ℕ
  accepted_one f (subscribe_event id c) = elim f.senders [
    | [] ↦ (if f.is_stopped then [] else c ∷ [])
    | s ∷ ss ↦ []
  ]
  accepted_one f _ = []

  unfoldable pub accepted : Feed T → List (Event T) → List ℕ
  accepted f [] = []
  accepted f (e ∷ es) = accepted_one f e ++ accepted (turn f e) es

abbrev IsOpen : Listener → Type 0
IsOpen l = l.done ≡ false

put-counts :
    (c : ℕ) (l : Listener) (ls : List Listener)
    → count l.id (ids_of ls) ≡ 0
    → count c (channels_of (put l ls)) ≡ one_when (c == l.channel) + count c (channels_of ls)
unfolding put
put-counts c l [] h = refl
put-counts c l (x ∷ xs) h = ground (arith, put-counts c l xs)

put-ids :
    (i : ℕ) (l : Listener) (ls : List Listener)
    → count i (ids_of (put l ls)) ≤ one_when (i == l.id) + count i (ids_of ls)
unfolding put
put-ids i l [] = omega arith
put-ids i l (x ∷ xs) = ground (arith, put-ids i l xs)

remove-ids : (i id : ℕ) (ls : List Listener) → count i (ids_of (remove id ls)) ≤ count i (ids_of ls)
unfolding remove
remove-ids i id [] = omega arith
remove-ids i id (x ∷ xs) = ground (arith, remove-ids i id xs)

put-IsOpen : (l : Listener) (ls : List Listener) → IsOpen l → All IsOpen ls → All IsOpen (put l ls)
unfolding put
put-IsOpen l [] h hs = (h, tt)
put-IsOpen l (x ∷ xs) h hs = elim (Bool-cases (l.id == x.id)) [
  | inl e ↦ rw e (h, hs.1)
  | inr e ↦ rw e (hs.0, put-IsOpen l xs h hs.1)
]

remove-IsOpen : (id : ℕ) (ls : List Listener) → All IsOpen ls → All IsOpen (remove id ls)
unfolding remove
remove-IsOpen id [] hs = tt
remove-IsOpen id (x ∷ xs) hs = elim (Bool-cases (id == x.id)) [
  | inl e ↦ rw e hs.1
  | inr e ↦ rw e (hs.0, remove-IsOpen id xs hs.1)
]

find-IsOpen :
    (id : ℕ) (ls : List Listener) (l : Listener)
    → find_listener id ls ≡ some l
    → All IsOpen ls
    → l.done ≡ false
find-IsOpen id [] l e hs = cc
find-IsOpen id (x ∷ xs) l e hs = let rest = find-IsOpen id xs l in ground (arith, hs.0, hs.1, rest)

module _ {T : Type 0} where
  abbrev total : ℕ → Feed T → ℕ
  total c f = count c f.closed + count c (channels_of f.listeners)

  -- `rest` are the IDs that are still to come.
  pub record IsOwned (f : Feed T) (rest : List ℕ) : Type 0 where
    pub ids : (i : ℕ) → count i (ids_of f.listeners) + count i rest ≤ 1
    pub open_all : All IsOpen f.listeners

  close_channel-counts :
      (c : ℕ) (f : Feed T) (l : Listener)
      → l.done ≡ false
      → count c (close_channel f l).closed ≡ count c f.closed + one_when (c == l.channel)
  unfolding close_channel
  close_channel-counts c f l h = ground (arith, count-append c f.closed (l.channel ∷ []))

  close_all-counts :
      (c : ℕ) (f : Feed T) (ls : List Listener)
      → All IsOpen ls
      → count c (close_all f ls).closed ≡ count c f.closed + count c (channels_of ls)
  unfolding close_all
  close_all-counts c f [] h = omega arith
  close_all-counts c f (l ∷ ls) h =
      let first = close_channel-counts c f l h.0 in
      omega (arith, first, close_all-counts c (close_channel f l) ls h.1)

  subscribe-accounts :
      (c : ℕ) (f : Feed T) (id ch : ℕ) (rest : List ℕ)
      → IsOwned f (id ∷ rest)
      → total c (subscribe f id ch) ≡ total c f + count c (if f.is_stopped then [] else ch ∷ [])
  unfolding subscribe
  subscribe-accounts c f id ch rest ok =
      let fresh : count id (ids_of f.listeners) ≡ 0 = let at_id = ok.ids id in ground arith in
      let puts = put-counts c (record { id = id; channel = ch; done = false }) f.listeners fresh in
      ground arith

  subscribe-IsOwned :
      (f : Feed T) (id ch : ℕ) (rest : List ℕ)
      → IsOwned f (id ∷ rest)
      → IsOwned (subscribe f id ch) rest
  unfolding subscribe
  subscribe-IsOwned f id ch rest ok =
      let l : Listener = record { id = id; channel = ch; done = false } in
      elim (Bool-cases f.is_stopped) [
        | inl e ↦
            simp e
              (record { ids = λ i. let at_i = ok.ids i in omega arith; open_all = ok.open_all })
        | inr e ↦ simp e (record {
          ids = λ i. let at_i = ok.ids i in let puts = put-ids i l f.listeners in omega arith;
          open_all = put-IsOpen l f.listeners refl ok.open_all;
        })
      ]

  unsubscribe_keeps :
      (f : Feed T) (id : ℕ) (rest : List ℕ)
      → IsOwned f rest
      → ((c : ℕ) → total c (unsubscribe f id) ≡ total c f) × IsOwned (unsubscribe f id) rest
  unfolding unsubscribe
  unsubscribe_keeps f id rest ok = elim (Option-cases (find_listener id f.listeners)) [
    | inl e ↦ rw (e, unsubscribe) (λ c. refl, ok)
    | inr (l, e) ↦
        let g = record f {
          subs = (f.subs + 2 ^ 32 - 1) % 2 ^ 32;
          listeners = remove id f.listeners;
        } in
        let is_open = find-IsOpen id f.listeners l e ok.open_all in
        rw (e, unsubscribe)
          (
            λ c.
                let closes = close_channel-counts c g l is_open in
                let less = count-remove c id f.listeners l e in
                rw (close_channel_keeps g l).0 (omega arith),
            record {
              ids = λ i.
                  let at_i = ok.ids i in
                  let less = remove-ids i id f.listeners in
                  rw (close_channel_keeps g l).0 (omega arith);
              open_all = rw (close_channel_keeps g l).0 (remove-IsOpen id f.listeners ok.open_all);
            },
          )
  ]

  stop_locked_keeps :
      (f : Feed T) (rest : List ℕ)
      → IsOwned f rest
      → ((c : ℕ) → total c (stop_locked f) ≡ total c f) × IsOwned (stop_locked f) rest
  unfolding stop_locked
  stop_locked_keeps f rest ok = elim (Bool-cases f.is_stopping) [
    | inr e ↦ simp e (λ c. refl, ok)
    | inl e ↦ simp e (
      λ c. let closes = close_all-counts c f f.listeners ok.open_all in omega arith,
      record { ids = λ i. let at_i = ok.ids i in omega arith; open_all = tt },
    )
  ]

  -- The other calls leave what the account is about.
  record IsSameAccount (f g : Feed T) : Type 0 where
    pub listeners : g.listeners ≡ f.listeners
    pub closed : g.closed ≡ f.closed

  stop-IsSameAccount : (f : Feed T) → IsSameAccount f (stop f)
  unfolding stop
  stop-IsSameAccount f = record { listeners = ground arith; closed = ground arith }

  send-IsSameAccount : (f : Feed T) (m : T) → IsSameAccount f (send f m)
  unfolding send
  send-IsSameAccount f m = record { listeners = ground arith; closed = ground arith }

  start_sender-IsSameAccount : (f : Feed T) (i : ℕ) → IsSameAccount f (start_sender f i)
  unfolding start_sender
  start_sender-IsSameAccount f i = record { listeners = ground arith; closed = ground arith }

  step_sender-IsSameAccount : (f : Feed T) (j k : ℕ) → IsSameAccount f (step_sender f j k)
  unfolding step_sender send_to
  step_sender-IsSameAccount f j k = record { listeners = ground arith; closed = ground arith }

  end_sender-IsSameAccount : (f : Feed T) (j : ℕ) → IsSameAccount f (end_sender f j)
  unfolding end_sender
  end_sender-IsSameAccount f j = record { listeners = ground arith; closed = ground arith }

  same_keeps :
      (f g : Feed T) (rest : List ℕ)
      → IsSameAccount f g
      → IsOwned f rest
      → ((c : ℕ) → total c g ≡ total c f + 0) × IsOwned g rest
  same_keeps f g rest same ok = (
    λ c. rw (same.listeners, same.closed) (omega arith),
    record { ids = λ i. rw same.listeners (ok.ids i); open_all = rw same.listeners ok.open_all },
  )

  accepted_free :
      (c : ℕ) (f : Feed T) (id ch : ℕ)
      → f.senders ≡ []
      → count c (accepted_one f (subscribe_event id ch))
        ≡ count c (if f.is_stopped then [] else ch ∷ [])
  accepted_free c f id ch free = rw free refl

  turn_subscribe :
      (f : Feed T) (id ch : ℕ) (rest : List ℕ)
      → IsOwned f (id ∷ rest)
      → ((c : ℕ)
          → total c (turn f (subscribe_event id ch))
            ≡ total c f + count c (accepted_one f (subscribe_event id ch)))
        × IsOwned (turn f (subscribe_event id ch)) rest
  unfolding turn
  turn_subscribe f id ch rest ok =
      let owned : IsOwned f rest = record {
        ids = λ i. let at_i = ok.ids i in omega arith;
        open_all = ok.open_all;
      } in
      elim f.senders
        as (λ ss.
          ((c : ℕ)
            → total c (elim ss [ [] ↦ subscribe f id ch | s ∷ r ↦ f ])
              ≡ total c f
                + count c (elim ss [ [] ↦ (if f.is_stopped then [] else ch ∷ []) | s ∷ r ↦ [] ]))
          × IsOwned (elim ss [ [] ↦ subscribe f id ch | s ∷ r ↦ f ]) rest) [
            | [] ↦ (λ c. subscribe-accounts c f id ch rest ok, subscribe-IsOwned f id ch rest ok)
            | s ∷ r ↦ (λ c. omega arith, owned)
          ]

  abbrev Keeps : Feed T → List ℕ → Feed T → Type 0
  Keeps f rest g = ((c : ℕ) → total c g ≡ total c f + 0) × IsOwned g rest

  plus_zero :
      (f g : Feed T) (rest : List ℕ)
      → ((c : ℕ) → total c g ≡ total c f) × IsOwned g rest
      → Keeps f rest g
  plus_zero f g rest h = (λ c. let at_c = h.0 c in omega arith, h.1)

  turn_keeps :
      (e : Event T) (es : List (Event T)) (f : Feed T)
      → IsOwned f (ids_in (e ∷ es))
      → ((c : ℕ) → total c (turn f e) ≡ total c f + count c (accepted_one f e))
        × IsOwned (turn f e) (ids_in es)
  unfolding turn
  turn_keeps (subscribe_event id ch) es f ok = turn_subscribe f id ch (ids_in es) ok
  turn_keeps (unsubscribe_event id) es f ok =
      locked_cases (Keeps f (ids_in es)) f (unsubscribe f id)
        (plus_zero f f (ids_in es) (λ c. refl, ok))
        (λ free. plus_zero f (unsubscribe f id) (ids_in es) (unsubscribe_keeps f id (ids_in es) ok))
  turn_keeps stop_event es f ok = same_keeps f (stop f) (ids_in es) (stop-IsSameAccount f) ok
  turn_keeps lock_event es f ok =
      locked_cases (Keeps f (ids_in es)) f (stop_locked f)
        (plus_zero f f (ids_in es) (λ c. refl, ok))
        (λ free. plus_zero f (stop_locked f) (ids_in es) (stop_locked_keeps f (ids_in es) ok))
  turn_keeps (send_event m) es f ok =
      same_keeps f (send f m) (ids_in es) (send-IsSameAccount f m) ok
  turn_keeps (start_event i) es f ok =
      same_keeps f (start_sender f i) (ids_in es) (start_sender-IsSameAccount f i) ok
  turn_keeps (step_event j k) es f ok =
      same_keeps f (step_sender f j k) (ids_in es) (step_sender-IsSameAccount f j k) ok
  turn_keeps (end_event j) es f ok =
      same_keeps f (end_sender f j) (ids_in es) (end_sender-IsSameAccount f j) ok

  -- A channel that is accepted is held by the feed or closed, as often as it was accepted.
  pub run_total :
      (c : ℕ) (es : List (Event T)) (f : Feed T)
      → IsOwned f (ids_in es)
      → total c (run f es) ≡ total c f + count c (accepted f es)
  unfolding run accepted
  run_total c [] f ok = omega arith
  run_total c (e ∷ es) f ok =
      let here = turn_keeps e es f ok in
      omega (
        arith,
        here.0 c,
        run_total c es (turn f e) here.1,
        count-append c (accepted_one f e) (accepted (turn f e) es),
      )
