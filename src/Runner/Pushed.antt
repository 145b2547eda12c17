-- ===== src/Runner/Pushed.antt =====
-- What the loop of a worker of crawler/workers/runner/runner.go handles and hands on.
use mathlib.Core.List.{append-nil}
use node_util.Base.{
  arith, append_one, ◌∙◌, ◌≡◌, refl, Bool, true, false, inl, inr, Bool-cases, Option-cases, List,
  [], ◌∷◌, ◌++◌, Option, none, some, if◌then◌else◌,
}
use node_util.Runner.{handle_item, RecvError, context_done, stopped, Turn, recv, Loop, work_loop}

module _ {T : Type 0} where
  -- The items before the context is done or the iterator stopped, and the error of that moment.
  unfoldable pub items_before_end : List (Turn T) → List T
  items_before_end [] = []
  items_before_end (t ∷ ts) =
      let rest = items_before_end ts in
      if t.is_done then [] else (if t.is_stopped then [] else t.next ∷ rest)

  unfoldable pub first_end : List (Turn T) → Option RecvError
  first_end [] = none
  first_end (t ∷ ts) =
      let rest = first_end ts in
      if t.is_done then some context_done else (if t.is_stopped then some stopped else rest)

module _ {T Y : Type 0} where
  -- The results that are no errors.
  unfoldable pub results : (T → Option Y) → List T → List Y
  results f [] = []
  results f (x ∷ xs) = elim (f x) [ none ↦ results f xs | some y ↦ y ∷ results f xs ]

  abbrev pub empty_loop : Loop T Y
  empty_loop = record { handled = []; pushed = []; error = none }

  abbrev pub kept : Bool → (T → Option Y) → List T → List Y
  kept write f xs = if write then results f xs else []

  handle_item-handled :
      (write : Bool) (f : T → Option Y) (l : Loop T Y) (x : T)
      → ((handle_item write f l x).handled ≡ l.handled ++ x ∷ [])
        × ((handle_item write f l x).error ≡ l.error)
  unfolding handle_item
  handle_item-handled write f l x = (ground arith, ground arith)

  handle_item-pushed :
      (write : Bool) (f : T → Option Y) (l : Loop T Y) (x : T) (xs : List T)
      → (handle_item write f l x).pushed ++ kept write f xs ≡ l.pushed ++ kept write f (x ∷ xs)
  unfolding handle_item results
  handle_item-pushed true f l x xs = elim (Option-cases (f x)) [
    | inl h ↦ rw (h, handle_item, results) refl
    | inr (y, h) ↦ rw (h, handle_item, results) (append_one l.pushed y (results f xs))
  ]
  handle_item-pushed false f l x xs = elim (Option-cases (f x)) [
    | inl h ↦ rw (h, handle_item) refl
    | inr (y, h) ↦ rw (h, handle_item) refl
  ]

  nothing_kept :
      (write : Bool) (f : T → Option Y) (l : Loop T Y) → l.pushed ≡ l.pushed ++ kept write f []
  unfolding results
  nothing_kept true f l = rw (append-nil l.pushed) refl
  nothing_kept false f l = rw (append-nil l.pushed) refl

  work_loop_from :
      (write : Bool) (f : T → Option Y) (ts : List (Turn T)) (l : Loop T Y)
      → l.error ≡ none
      → ((work_loop write f l ts).handled ≡ l.handled ++ items_before_end ts)
        × (((work_loop write f l ts).pushed ≡ l.pushed ++ kept write f (items_before_end ts))
            × ((work_loop write f l ts).error ≡ first_end ts))
  unfolding work_loop recv items_before_end first_end results
  work_loop_from write f [] l none_yet =
      (rw (append-nil l.handled) refl, (nothing_kept write f l, none_yet))
  work_loop_from write f (t ∷ ts) l none_yet = elim (Bool-cases t.is_done) [
    | inl e ↦ rw e (rw (append-nil l.handled) refl, (nothing_kept write f l, refl))
    | inr e ↦ elim (Bool-cases t.is_stopped) [
      | inl s ↦ rw (e, s) (rw (append-nil l.handled) refl, (nothing_kept write f l, refl))
      | inr s ↦
          let m = handle_item write f l t.next in
          let here = handle_item-handled write f l t.next in
          let later = work_loop_from write f ts m (here.1 ∙ none_yet) in
          let first : m.handled ++ items_before_end ts ≡ l.handled ++ t.next ∷ items_before_end ts =
            rw here.0 (append_one l.handled t.next (items_before_end ts)) in
          rw (e, s)
            (
              later.0 ∙ first,
              (later.1.0 ∙ handle_item-pushed write f l t.next (items_before_end ts), later.1.1),
            )
    ]
  ]

  -- A worker gives each item to OnData once and in order until the context is done or the iterator
  -- has stopped, and hands on exactly the results that are no errors, in order, if it writes at all;
  -- it ends with the error of that moment, never with one of OnData.
  pub work_loop_lem :
      (write : Bool) (f : T → Option Y) (ts : List (Turn T))
      → ((work_loop write f empty_loop ts).handled ≡ items_before_end ts)
        × (((work_loop write f empty_loop ts).pushed ≡ kept write f (items_before_end ts))
            × ((work_loop write f empty_loop ts).error ≡ first_end ts))
  work_loop_lem write f ts = work_loop_from write f ts empty_loop refl
