-- ===== src/Feed.antt =====
-- crawler/events: feed.go with the subscriptions of sub.go and the channels of channel.go. What one
-- goroutine does under the lock is an event; a sender keeps the read lock from its first listener
-- to its last, so that each of its sends is an event of its own.
pub mod Closed
pub mod Account
pub mod Stopped
mod Tests
use node_util.Base.{
  ℕ, zero, suc, ◌+◌, ◌-◌, ◌%◌, ◌^◌, Bool, true, false, ◌||◌, List, [], ◌∷◌, ◌++◌, map, Option, none,
  some, ◌==◌, if◌then◌else◌, get_elem?, set,
}

-- An entry of the map: the ID of the subscription and the wrapped channel. Channels are numbers.
-- Close sets `done`, but only on a channel whose entry is deleted under the same lock.
pub record Listener : Type 0 where
  pub id : ℕ
  pub channel : ℕ
  pub done : Bool

-- A goroutine of Send that holds the read lock, with the listeners that are left.
pub record Sender (T : Type 0) : Type 0 where
  pub message : T
  pub left : List ℕ

-- `waiting` has the goroutines of Send before the lock, `is_stopping` a Stop before it. `sent` and
-- `closed` list what happened to the channels, `panics` a misuse of one.
pub record Feed (T : Type 0) : Type 0 where
  pub listeners : List Listener
  pub subs : ℕ
  pub is_stopped : Bool
  pub is_stopping : Bool
  pub waiting : List T
  pub senders : List (Sender T)
  pub sent : List (ℕ × T)
  pub closed : List ℕ
  pub panics : Bool

abbrev pub find_listener : ℕ → List Listener → Option Listener
find_listener id [] = none
find_listener id (x ∷ xs) = let rest = find_listener id xs in if id == x.id then some x else rest

-- The assignment to a key of the map, and `delete`.
unfoldable pub put : Listener → List Listener → List Listener
put l [] = l ∷ []
put l (x ∷ xs) = let rest = put l xs in if l.id == x.id then l ∷ xs else x ∷ rest

unfoldable pub remove : ℕ → List Listener → List Listener
remove id [] = []
remove id (x ∷ xs) = let rest = remove id xs in if id == x.id then xs else x ∷ rest

abbrev pub holds : ℕ → List ℕ → Bool
holds c [] = false
holds c (x ∷ xs) = (c == x) || holds c xs

abbrev pub remove_at {ℓ} : {A : Type ℓ} → List A → ℕ → List A
remove_at [] i = []
remove_at (x ∷ xs) zero = xs
remove_at (x ∷ xs) (suc i) = x ∷ remove_at xs i

abbrev pub ids_of : List Listener → List ℕ
ids_of = map (λ l. l.id)

module _ {T : Type 0} where
  unfoldable pub new_feed : Feed T
  new_feed = record {
    listeners = [];
    subs = 0;
    is_stopped = false;
    is_stopping = false;
    waiting = [];
    senders = [];
    sent = [];
    closed = [];
    panics = false;
  }

  -- `subs` is an int32. Once stopped, the caller gets an empty subscription.
  unfoldable pub subscribe : Feed T → ℕ → ℕ → Feed T
  unfolding put
  subscribe f id channel = if f.is_stopped then f else record f {
    listeners = put (record { id = id; channel = channel; done = false }) f.listeners;
    subs = (f.subs + 1) % 2 ^ 32;
  }

  -- Close waits until no send is under way; there is none, as the senders hold the lock. A second
  -- close of a channel panics.
  unfoldable pub close_channel : Feed T → Listener → Feed T
  close_channel f l = if l.done then f else record f {
    closed = f.closed ++ l.channel ∷ [];
    panics = f.panics || holds l.channel f.closed;
  }

  unfoldable pub unsubscribe : Feed T → ℕ → Feed T
  unfolding remove close_channel
  unsubscribe f id = elim (find_listener id f.listeners) [
    | none ↦ f
    | some l ↦
        close_channel
          (record f { subs = (f.subs + 2 ^ 32 - 1) % 2 ^ 32; listeners = remove id f.listeners }) l
  ]

  unfoldable pub close_all : Feed T → List Listener → Feed T
  unfolding close_channel
  close_all f [] = f
  close_all f (l ∷ ls) = close_all (close_channel f l) ls

  -- The part of Stop before the lock, then the one under it.
  unfoldable pub stop : Feed T → Feed T
  stop f = if f.is_stopped then f else record f { is_stopped = true; is_stopping = true }

  unfoldable pub stop_locked : Feed T → Feed T
  unfolding close_all
  stop_locked f =
      if f.is_stopping
      then record (close_all f f.listeners) { listeners = []; is_stopping = false }
      else f

  unfoldable pub send : Feed T → T → Feed T
  send f m = if f.subs == 0 then f else record f { waiting = f.waiting ++ m ∷ [] }

  -- The goroutine at an index gets the read lock.
  unfoldable pub start_sender : Feed T → ℕ → Feed T
  start_sender f i = elim (get_elem? f.waiting i) [
    | none ↦ f
    | some m ↦ record f {
      waiting = remove_at f.waiting i;
      senders = f.senders ++ record { message = m; left = ids_of f.listeners } ∷ [];
    }
  ]

  -- `f.listeners[i].Send(data)`: a missing entry and a send to a closed channel panic.
  unfoldable pub send_to : Feed T → T → ℕ → Feed T
  send_to f m id = elim (find_listener id f.listeners) [
    | none ↦ record f { panics = true }
    | some l ↦ if l.done then f else record f {
      sent = f.sent ++ (l.channel, m) ∷ [];
      panics = f.panics || holds l.channel f.closed;
    }
  ]

  -- The sender j goes on to the k-th of the listeners that it has left, in the order of the map.
  unfoldable pub step_sender : Feed T → ℕ → ℕ → Feed T
  unfolding send_to
  step_sender f j k = elim (get_elem? f.senders j) [
    | none ↦ f
    | some s ↦ elim (get_elem? s.left k) [
      | none ↦ f
      | some id ↦
          send_to (record f { senders = set f.senders j (record s { left = remove_at s.left k }) })
            s.message id
    ]
  ]

  -- A sender without listeners left gives the lock back.
  unfoldable pub end_sender : Feed T → ℕ → Feed T
  end_sender f j = elim (get_elem? f.senders j) [
    | none ↦ f
    | some s ↦ elim s.left [ [] ↦ record f { senders = remove_at f.senders j } | id ∷ ids ↦ f ]
  ]

pub data Event (T : Type 0) : Type 0 where
  subscribe_event : ℕ → ℕ → Event T
  unsubscribe_event : ℕ → Event T
  stop_event lock_event : Event T
  send_event : T → Event T
  start_event : ℕ → Event T
  step_event : ℕ → ℕ → Event T
  end_event : ℕ → Event T

module _ {T : Type 0} where
  -- A writer gets the lock only when no sender holds it.
  abbrev pub locked : Feed T → Feed T → Feed T
  locked f g = elim f.senders [ [] ↦ g | s ∷ ss ↦ f ]

  unfoldable pub turn : Feed T → Event T → Feed T
  unfolding subscribe unsubscribe stop stop_locked send start_sender step_sender end_sender
  turn f (subscribe_event id c) = locked f (subscribe f id c)
  turn f (unsubscribe_event id) = locked f (unsubscribe f id)
  turn f stop_event = stop f
  turn f lock_event = locked f (stop_locked f)
  turn f (send_event m) = send f m
  turn f (start_event i) = start_sender f i
  turn f (step_event j k) = step_sender f j k
  turn f (end_event j) = end_sender f j

  unfoldable pub run : Feed T → List (Event T) → Feed T
  unfolding turn
  run f [] = f
  run f (e ∷ es) = run (turn f e) es
