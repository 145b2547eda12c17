-- ===== src/Query/Asked.antt =====
-- The nodes that a lookup of crawler/net/discovery/query.go asks.
use node_util.Base.{
  ℕ, ◌≤◌, ◌≡◌, refl, ◌||◌, inl, inr, Bool-cases, List, [], ◌∷◌, none, some, arith, ◌==◌, count,
  one_when, Option,
}
use node_util.Node.{NodeId, Enode, wrap_node}
use node_util.Distance.{push}
use node_util.NetUtil.{Distances}
use node_util.Query.{
  has, Lookup, Round, begin_round, next_node, cancel, look_at, give_up, answer, Event, next_event,
  merge, cancel_event, answer_event, react, play, run,
}

-- Every query is for a node marked as asked, and there is one at most for each.
abbrev pub IsFair : List NodeId → List NodeId → Type 0
IsFair queried asked = (t : NodeId) → count t queried ≤ one_when (has t asked)

look_at-IsFair :
    (r : Round) (ns : List Enode)
    → IsFair r.lookup.queried r.lookup.asked
    → IsFair (look_at r ns).lookup.queried (look_at r ns).lookup.asked
unfolding look_at has
look_at-IsFair r [] ok t = ok t
look_at-IsFair r (n ∷ rest) ok t = ground (arith, ok t)

give_up-IsFair :
    (r : Round) (ns : List Enode)
    → IsFair r.lookup.queried r.lookup.asked
    → IsFair (give_up r ns).lookup.queried (give_up r ns).lookup.asked
unfolding give_up has
give_up-IsFair r [] ok t = ok t
give_up-IsFair r (n ∷ rest) ok t = ground (arith, ok t)

-- An answer changes neither what was asked nor what was queried.
answer_keeps :
    (r : Round) (i : ℕ) (reply : Option (List Enode))
    → ((answer r i reply).lookup.queried ≡ r.lookup.queried)
      × ((answer r i reply).lookup.asked ≡ r.lookup.asked)
unfolding answer
answer_keeps r i none = ground arith
answer_keeps r i (some nodes) = ground arith

react-IsFair :
    (r : Round) (e : Event)
    → IsFair r.lookup.queried r.lookup.asked
    → IsFair (react r e).lookup.queried (react r e).lookup.asked
unfolding react next_node cancel
react-IsFair r next_event ok t = look_at-IsFair r r.left ok t
react-IsFair r cancel_event ok t = give_up-IsFair r r.left ok t
react-IsFair r (answer_event i reply) ok t =
    rw ((answer_keeps r i reply).0, (answer_keeps r i reply).1) (ok t)

play-IsFair :
    (r : Round) (es : List Event)
    → IsFair r.lookup.queried r.lookup.asked
    → IsFair (play r es).lookup.queried (play r es).lookup.asked
unfolding play
play-IsFair r [] ok = ok
play-IsFair r (e ∷ es) ok = play-IsFair (react r e) es (react-IsFair r e ok)

module _ (d : Distances) where
  merge_keeps :
      (ns : List Enode) (l : Lookup)
      → ((merge d l ns).queried ≡ l.queried) × ((merge d l ns).asked ≡ l.asked)
  unfolding merge
  merge_keeps [] l = (refl, refl)
  merge_keeps (n ∷ ns) l = elim (Bool-cases (has n.id l.seen)) [
    | inl old ↦ rw old (merge_keeps ns l)
    | inr new ↦ rw new (
        merge_keeps ns
          (record l { seen = n.id ∷ l.seen; result = push d l.result (wrap_node n) l.wants }))
  ]

  run-IsFair :
      (rounds : List (List Event)) (l : Lookup)
      → IsFair l.queried l.asked
      → IsFair (run d l rounds).queried (run d l rounds).asked
  unfolding run begin_round
  run-IsFair [] l ok = ok
  run-IsFair (es ∷ rounds) l ok =
      let r = play (begin_round l) es in
      let played : IsFair r.lookup.queried r.lookup.asked = play-IsFair (begin_round l) es ok in
      elim (Bool-cases (l.depth == 0)) [
        | inl last ↦ rw last ok
        | inr more ↦ elim (Bool-cases (r.cancelled || (r.finished == 0))) [
          | inl stop ↦ rw (more, stop) played
          | inr go ↦
              rw (more, go)
                (run-IsFair rounds (record (merge d r.lookup r.lookup.buffer) { buffer = [] })
                  (λ t.
                    rw
                      (
                        (merge_keeps r.lookup.buffer r.lookup).0,
                        (merge_keeps r.lookup.buffer r.lookup).1,
                      )
                      (played t)))
        ]
      ]

  -- A lookup that has asked no node yet asks each node once at most, however its rounds go.
  pub run-queried :
      (l : Lookup) (rounds : List (List Event)) (t : NodeId)
      → l.queried ≡ []
      → count t (run d l rounds).queried ≤ 1
  run-queried l rounds t h =
      let start : IsFair l.queried l.asked = λ u. rw h (omega arith) in
      ground (arith, run-IsFair rounds l start t)
