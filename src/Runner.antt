-- ===== src/Runner.antt =====
-- crawler/workers/runner: the loop of a worker over an iterator (runner.go) and its items (item.go).
-- A turn of the loop starts with the end of the context or with what Next and Stopped give.
pub mod Pushed
pub mod Iterator
mod Tests
use node_util.Base.{
  ℕ, ◌+◌, ◌*◌, ◌/◌, Bool, true, false, List, [], ◌∷◌, ◌++◌, Option, none, some, if◌then◌else◌,
}

-- Item, with its time in microseconds.
pub record Item (T : Type 0) : Type 0 where
  pub ts : ℕ
  pub data_of : T

-- From nanoseconds.
unfoldable pub new_item_with_ts : {T : Type 0} → T → ℕ → Item T
new_item_with_ts value ts = record { ts = ts / 1000; data_of = value }

unfoldable pub creation_time : {T : Type 0} → Item T → ℕ
creation_time i = i.ts * 1000

pub data RecvError : Type 0 where
  context_done stopped : RecvError

-- `is_done` is ctx.Done(), `is_stopped` what Stopped() says after Next().
pub record Turn (T : Type 0) : Type 0 where
  pub is_done : Bool
  pub next : T
  pub is_stopped : Bool

pub data Received (T : Type 0) : Type 0 where
  item : T → Received T
  recv_error : RecvError → Received T

-- `handled` are the items given to OnData, `pushed` the results given to the next iterator.
pub record Loop (T Y : Type 0) : Type 0 where
  pub handled : List T
  pub pushed : List Y
  pub error : Option RecvError

module _ {T : Type 0} where
  unfoldable pub recv : Turn T → Received T
  recv t =
      if t.is_done
      then recv_error context_done
      else (if t.is_stopped then recv_error stopped else item t.next)

module _ {T Y : Type 0} where
  -- A turn of workLoop with an item; `on_data` is the worker's OnData, `none` for its errors.
  unfoldable pub handle_item : Bool → (T → Option Y) → Loop T Y → T → Loop T Y
  handle_item write on_data l x =
      let taken = record l { handled = l.handled ++ x ∷ [] } in
      elim (on_data x) [
        | none ↦ taken
        | some y ↦ if write then record taken { pushed = l.pushed ++ y ∷ [] } else taken
      ]

  -- The loop ends with the first error of recv.
  unfoldable pub work_loop : Bool → (T → Option Y) → Loop T Y → List (Turn T) → Loop T Y
  unfolding recv handle_item
  work_loop write on_data l [] = l
  work_loop write on_data l (t ∷ ts) = elim (recv t) [
    | recv_error e ↦ record l { error = some e }
    | item x ↦ work_loop write on_data (handle_item write on_data l x) ts
  ]
