-- ===== src/Awaiter/Once.antt =====
-- Requests of crawler/net/discovery/responseAwaiter.go are answered once, and the back-off of its
-- ticker stays within its bounds.
use node_util.Base.{
  Bool, ℕ, ◌+◌, ◌≤◌, ◌≡◌, refl, inl, inr, Bool-cases, List, [], ◌∷◌, map, arith, ltb, count,
  count-append, one_when, map-append, Option-cases,
}
use node_util.Awaiter.{
  AwaitableRequest, Awaiter, Event, reply_event, request_event, tick_event, RespError, lower, upper,
  new_awaiter, match_queue, drop_expired, check_deadlines, next_delay, marked_one, turn, run,
  Request, Response, is_match, is_expired, deadline_passed, settle,
}

abbrev pub tags : List AwaitableRequest → List ℕ
tags = map (λ x. x.tag)

abbrev pub marks : List (ℕ × RespError) → List ℕ
marks = map (λ m. m.0)

-- How often a request is pending or answered.
abbrev pub seen : Awaiter → ℕ → ℕ
seen a t = count t (tags a.queue) + count t (marks a.marked)

module _ (now : ℕ) (checker : Request → Response → Bool × Bool) (reply : Response) (t : ℕ) where
  count-match_queue :
      (xs : List AwaitableRequest)
      → count t (tags (match_queue now checker reply xs).0)
          + count t (marks (marked_one (match_queue now checker reply xs).1))
        ≡ count t (tags xs)
  unfolding match_queue
  count-match_queue [] = refl
  count-match_queue (x ∷ xs) = elim (Bool-cases (is_match x.request reply)) [
    | inl hit ↦ elim (Option-cases (settle x.request now (checker x.request reply))) [
      | inl stays ↦ rw (hit, stays) (omega arith)
      | inr (e, gone) ↦ rw (hit, gone) (omega arith)
    ]
    | inr miss ↦ rw miss (omega (arith, count-match_queue xs))
  ]

module _ (now t : ℕ) where
  count-drop_expired :
      (xs : List AwaitableRequest)
      → count t (tags (drop_expired now xs).0) + count t (drop_expired now xs).1 ≡ count t (tags xs)
  unfolding drop_expired
  count-drop_expired [] = refl
  count-drop_expired (x ∷ xs) = elim (Bool-cases (is_expired now x)) [
    | inl old ↦ rw old (omega (arith, count-drop_expired xs))
    | inr young ↦ rw young (omega arith)
  ]

  count-check_deadlines :
      (xs : List AwaitableRequest)
      → count t (tags (check_deadlines now xs).0) + count t (check_deadlines now xs).1
        ≡ count t (tags xs)
  unfolding check_deadlines
  count-check_deadlines [] = refl
  count-check_deadlines (x ∷ xs) = elim (Bool-cases (is_expired now x)) [
    | inl old ↦
        rw (old, count-append t (drop_expired now xs).1 (x.tag ∷ []))
          (omega (arith, count-drop_expired xs))
    | inr young ↦ rw young (omega (arith, count-drop_expired xs))
  ]

marks_expired : (ts : List ℕ) → marks (map (λ t. (t, deadline_passed)) ts) ≡ ts
marks_expired [] = refl
marks_expired (t ∷ ts) = rw (marks_expired ts) refl

-- A turn creates one object for a request, and else only moves them.
seen-turn :
    (a : Awaiter) (e : Event) (t : ℕ)
    → seen (turn a e) t + one_when (ltb t a.made) ≡ seen a t + one_when (ltb t (turn a e).made)
unfolding turn
seen-turn a (reply_event now checker reply) t =
    rw
      (
        map-append (λ (m : ℕ × RespError). m.0) a.marked
            (marked_one (match_queue now checker reply a.queue).1),
        count-append,
      )
      (omega (arith, count-match_queue now checker reply t a.queue))
seen-turn a (request_event req) t = rw (map-append, count-append) (ground arith)
seen-turn a (tick_event now) t =
    rw (map-append, count-append, marks_expired)
      (omega (arith, count-check_deadlines now t a.queue))

seen-run :
    (a : Awaiter) (es : List Event) (t : ℕ)
    → seen (run a es) t + one_when (ltb t a.made) ≡ seen a t + one_when (ltb t (run a es).made)
unfolding run
seen-run a [] t = refl
seen-run a (e ∷ es) t = omega (arith, seen-run (turn a e) es t, seen-turn a e t)

-- Whatever events an awaiter handles, every request that was added is either pending or marked, and
-- is so exactly once; nothing else is.
pub run_once :
    (es : List Event) (t : ℕ)
    → count t (tags (run new_awaiter es).queue) + count t (marks (run new_awaiter es).marked)
      ≡ one_when (ltb t (run new_awaiter es).made)
unfolding new_awaiter
run_once es t = ground (arith, seen-run new_awaiter es t)

next_delay_bounds :
    (c k : ℕ) → (lower ≤ c) × (c ≤ upper) → (lower ≤ next_delay c k) × (next_delay c k ≤ upper)
unfolding next_delay
next_delay_bounds c k h = ground arith

turn_bounds :
    (a : Awaiter) (e : Event)
    → (lower ≤ a.current) × (a.current ≤ upper)
    → (lower ≤ (turn a e).current) × ((turn a e).current ≤ upper)
unfolding turn
turn_bounds a (reply_event now checker reply) h = h
turn_bounds a (request_event req) h = h
turn_bounds a (tick_event now) h = next_delay_bounds a.current _ h

run_bounds :
    (a : Awaiter) (es : List Event)
    → (lower ≤ a.current) × (a.current ≤ upper)
    → (lower ≤ (run a es).current) × ((run a es).current ≤ upper)
unfolding run
run_bounds a [] h = h
run_bounds a (e ∷ es) h = run_bounds (turn a e) es (turn_bounds a e h)

-- Whatever events an awaiter handles, it looks at the deadlines again after 100 milliseconds at least
-- and 5 seconds at most.
pub run_delay :
    (es : List Event)
    → (lower ≤ (run new_awaiter es).current) × ((run new_awaiter es).current ≤ upper)
unfolding new_awaiter
run_delay es = run_bounds new_awaiter es (ground arith)
