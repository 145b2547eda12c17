-- ===== src/Query/Ranked.antt =====
-- The result of a lookup of crawler/net/discovery/query.go.
use node_util.Base.{
  ℕ, zero, suc, ◌+◌, ◌≤◌, ◌≡◌, refl, false, ◌||◌, inl, inr, Bool-cases, List, [], ◌∷◌, arith, ltb,
  ◌==◌, length, length-take-le, ◌∙◌, Option, none, some, count, one_when, map, take,
}
use node_util.Node.{NodeId, Enode, Node, wrap_node}
use node_util.NetUtil.{Distances, DistanceLaws}
use node_util.Distance.{push}
use node_util.Distance.Ideal.{insert, IsSorted, insert-IsSorted, take-IsSorted}
use node_util.Distance.Closest.{push-insert}
use node_util.Query.{
  has, Lookup, merge, Round, begin_round, next_node, cancel, look_at, give_up, answer, Event,
  next_event, cancel_event, answer_event, react, play, run,
}

abbrev pub ids : List Node → List NodeId
ids = map (λ n. n.id)

-- What a round leaves alone.
pub record IsSameRank (l m : Lookup) : Type 0 where
  pub result : m.result ≡ l.result
  pub wants : m.wants ≡ l.wants
  pub seen : m.seen ≡ l.seen
  pub depth : m.depth ≡ l.depth

look_at-IsSameRank : (r : Round) (ns : List Enode) → IsSameRank r.lookup (look_at r ns).lookup
unfolding look_at
look_at-IsSameRank r [] = record { result = refl; wants = refl; seen = refl; depth = refl }
look_at-IsSameRank r (n ∷ ns) = record {
  result = ground arith;
  wants = ground arith;
  seen = ground arith;
  depth = ground arith;
}

give_up-IsSameRank : (r : Round) (ns : List Enode) → IsSameRank r.lookup (give_up r ns).lookup
unfolding give_up
give_up-IsSameRank r [] = record { result = refl; wants = refl; seen = refl; depth = refl }
give_up-IsSameRank r (n ∷ ns) = record {
  result = ground arith;
  wants = ground arith;
  seen = ground arith;
  depth = ground arith;
}

answer-IsSameRank :
    (r : Round) (i : ℕ) (reply : Option (List Enode))
    → IsSameRank r.lookup (answer r i reply).lookup
unfolding answer
answer-IsSameRank r i none = record {
  result = ground arith;
  wants = ground arith;
  seen = ground arith;
  depth = ground arith;
}
answer-IsSameRank r i (some nodes) = record {
  result = ground arith;
  wants = ground arith;
  seen = ground arith;
  depth = ground arith;
}

react-IsSameRank : (r : Round) (e : Event) → IsSameRank r.lookup (react r e).lookup
unfolding react next_node cancel
react-IsSameRank r next_event = look_at-IsSameRank r r.left
react-IsSameRank r cancel_event = give_up-IsSameRank r r.left
react-IsSameRank r (answer_event i reply) = answer-IsSameRank r i reply

pub play-IsSameRank : (r : Round) (es : List Event) → IsSameRank r.lookup (play r es).lookup
unfolding play
play-IsSameRank r [] = record { result = refl; wants = refl; seen = refl; depth = refl }
play-IsSameRank r (e ∷ es) =
    let first = react-IsSameRank r e in
    let rest = play-IsSameRank (react r e) es in
    record {
      result = rest.result ∙ first.result;
      wants = rest.wants ∙ first.wants;
      seen = rest.seen ∙ first.seen;
      depth = rest.depth ∙ first.depth;
    }

module _ (d : Distances) (laws : DistanceLaws d) where
  -- The result is sorted by the distance to the target, not longer than wanted, and its nodes are
  -- different nodes that were seen.
  pub record IsRanked (l : Lookup) : Type 0 where
    pub sorted : IsSorted d l.result.target l.result.entries
    pub size : length l.result.entries ≤ l.wants
    pub distinct : (t : NodeId) → count t (ids l.result.entries) ≤ one_when (has t l.seen)

  count-insert :
      (t target : NodeId) (n : Node) (es : List Node)
      → count t (ids (insert d target n es)) ≡ one_when (t == n.id) + count t (ids es)
  unfolding insert
  count-insert t target n [] = refl
  count-insert t target n (x ∷ es) =
      elim (Bool-cases (ltb (d.dist target n.id) (d.dist target x.id))) [
        | inl closer ↦ rw closer refl
        | inr farther ↦ rw farther (omega (arith, count-insert t target n es))
      ]

  count-take : (t : NodeId) (k : ℕ) (es : List Node) → count t (ids (take k es)) ≤ count t (ids es)
  count-take t zero es = omega arith
  count-take t (suc k) [] = omega arith
  count-take t (suc k) (x ∷ es) = omega (arith, count-take t k es)

  -- One push of a node that was not seen.
  abbrev pub see : Lookup → Enode → Lookup
  see l n = record l { seen = n.id ∷ l.seen; result = push d l.result (wrap_node n) l.wants }

  pub see-IsRanked :
      (l : Lookup) (n : Enode) → has n.id l.seen ≡ false → IsRanked l → IsRanked (see l n)
  unfolding has wrap_node
  see-IsRanked l n new ok =
      rw (push-insert d laws l.result (wrap_node n) l.wants ok.sorted ok.size) (record {
        sorted =
            take-IsSorted d l.result.target l.wants _
              (insert-IsSorted d l.result.target (wrap_node n) l.result.entries ok.sorted);
        size = length-take-le l.wants (insert d l.result.target (wrap_node n) l.result.entries);
        distinct = λ t. ground (
          arith,
          ok.distinct t,
          count-insert t l.result.target (wrap_node n) l.result.entries,
          count-take t l.wants (insert d l.result.target (wrap_node n) l.result.entries),
        );
      })

  merge-IsRanked : (ns : List Enode) (l : Lookup) → IsRanked l → IsRanked (merge d l ns)
  unfolding merge
  merge-IsRanked [] l ok = ok
  merge-IsRanked (n ∷ ns) l ok = elim (Bool-cases (has n.id l.seen)) [
    | inl old ↦ rw old (merge-IsRanked ns l ok)
    | inr new ↦ rw new (merge-IsRanked ns (see l n) (see-IsRanked l n new ok))
  ]

  same-IsRanked : (l m : Lookup) → IsSameRank l m → IsRanked l → IsRanked m
  same-IsRanked l m same ok = record {
    sorted = rw same.result ok.sorted;
    size = rw (same.result, same.wants) ok.size;
    distinct = λ t. rw (same.result, same.seen) (ok.distinct t);
  }

  -- If the result of a lookup is sorted by the distance to the target, not longer than wanted and
  -- made of different nodes that were seen, it is all of this after any rounds, whatever nodes the
  -- queries bring and in whatever order the answers come.
  pub run-IsRanked :
      (rounds : List (List Event)) (l : Lookup) → IsRanked l → IsRanked (run d l rounds)
  unfolding run begin_round
  run-IsRanked [] l ok = ok
  run-IsRanked (es ∷ rounds) l ok =
      let r = play (begin_round l) es in
      let played : IsRanked r.lookup =
        same-IsRanked (begin_round l).lookup r.lookup (play-IsSameRank (begin_round l) es)
          (record { sorted = ok.sorted; size = ok.size; distinct = ok.distinct }) in
      let merged = merge-IsRanked r.lookup.buffer r.lookup played in
      elim (Bool-cases (l.depth == 0)) [
        | inl last ↦ rw last ok
        | inr more ↦ elim (Bool-cases (r.cancelled || (r.finished == 0))) [
          | inl stop ↦ rw (more, stop) played
          | inr go ↦
              rw (more, go)
                (run-IsRanked rounds (record (merge d r.lookup r.lookup.buffer) { buffer = [] })
                  (record {
                    sorted = merged.sorted;
                    size = merged.size;
                    distinct = merged.distinct;
                  }))
        ]
      ]
