-- ===== src/Awaiter/Deadlines.antt =====
-- What a reply and a look at the deadlines of crawler/net/discovery/responseAwaiter.go leave in the
-- queue.
use node_util.Base.{
  Bool, ℕ, ◌≤◌, ◌<◌, ◌≡◌, refl, inl, inr, Bool-cases, List, [], ◌∷◌, arith, All, Option-cases,
  if◌then◌else◌, leb, All-map,
}
use node_util.Awaiter.{
  AwaitableRequest, Request, Response, is_match, is_expired, match_queue, drop_expired,
  check_deadlines, settle,
}

-- The requests that a reply is not about.
unfoldable pub others : Response → List AwaitableRequest → List AwaitableRequest
others reply [] = []
others reply (x ∷ xs) =
    let rest = others reply xs in if is_match x.request reply then rest else x ∷ rest

-- A reply leaves the requests that do not match it in the queue, all of them and in their order.
pub others-match_queue :
    (now : ℕ) (checker : Request → Response → Bool × Bool) (reply : Response)
    (xs : List AwaitableRequest)
    → others reply (match_queue now checker reply xs).0 ≡ others reply xs
unfolding others match_queue
others-match_queue now checker reply [] = refl
others-match_queue now checker reply (x ∷ xs) = elim (Bool-cases (is_match x.request reply)) [
  | inl hit ↦ elim (Option-cases (settle x.request now (checker x.request reply))) [
    | inl stays ↦ rw (hit, stays, hit) refl
    | inr (e, gone) ↦ rw (hit, gone) refl
  ]
  | inr miss ↦ rw (miss, miss, others-match_queue now checker reply xs) refl
]

-- The queue is in the order of its deadlines.
unfoldable pub IsOrdered : List AwaitableRequest → Type 0
IsOrdered [] = Unit
IsOrdered (x ∷ xs) = All (λ y. x.request.expiration ≤ y.request.expiration) xs × IsOrdered xs

drop_expired-alive :
    (now : ℕ) (xs : List AwaitableRequest)
    → IsOrdered xs
    → All (λ y. now < y.request.expiration) (drop_expired now xs).0
unfolding drop_expired is_expired IsOrdered
drop_expired-alive now [] h = tt
drop_expired-alive now (x ∷ xs) h = elim (Bool-cases (leb x.request.expiration now)) [
  | inl old ↦ rw old (drop_expired-alive now xs h.1)
  | inr young ↦ rw young (ground arith, All-map (λ y le. ground arith) xs h.0)
]

-- On a queue in the order of its deadlines, checkDeadlines leaves only requests whose deadline is
-- still to come.
pub check_deadlines-alive :
    (now : ℕ) (xs : List AwaitableRequest)
    → IsOrdered xs
    → All (λ y. now < y.request.expiration) (check_deadlines now xs).0
unfolding check_deadlines is_expired IsOrdered
check_deadlines-alive now [] h = tt
check_deadlines-alive now (x ∷ xs) h = elim (Bool-cases (leb x.request.expiration now)) [
  | inl old ↦ rw old (drop_expired-alive now xs h.1)
  | inr young ↦ rw young (ground arith, drop_expired-alive now xs h.1)
]
