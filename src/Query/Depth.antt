-- ===== src/Query/Depth.antt =====
-- How many rounds a lookup of crawler/net/discovery/query.go runs.
use node_util.Base.{
  ℕ, zero, suc, ◌-◌, ◌≤◌, ◌≡◌, refl, true, inl, inr, Bool-cases, List, [], ◌∷◌, ◌∙◌, arith, ◌==◌,
  take,
}
use node_util.Node.{Enode, wrap_node}
use node_util.NetUtil.{Distances}
use node_util.Distance.{push}
use node_util.Query.{has, Lookup, merge, begin_round, Event, play, run}
use node_util.Query.Ranked.{play-IsSameRank}

module _ (d : Distances) where
  depth-merge : (ns : List Enode) (l : Lookup) → (merge d l ns).depth ≡ l.depth
  unfolding merge
  depth-merge [] l = refl
  depth-merge (n ∷ ns) l = elim (Bool-cases (has n.id l.seen)) [
    | inl old ↦ rw old (depth-merge ns l)
    | inr new ↦ rw new (
        depth-merge ns
          (record l { seen = n.id ∷ l.seen; result = push d l.result (wrap_node n) l.wants }))
  ]

  depth-round :
      (l : Lookup) (es : List Event)
      → (merge d (play (begin_round l) es).lookup (play (begin_round l) es).lookup.buffer).depth
        ≡ l.depth - 1
  unfolding begin_round
  depth-round l es =
      depth-merge (play (begin_round l) es).lookup.buffer (play (begin_round l) es).lookup
      ∙ (play-IsSameRank (begin_round l) es).depth

  -- A lookup of depth k at most runs k rounds at most: what would happen in further rounds changes
  -- nothing.
  pub run-take :
      (rounds : List (List Event)) (k : ℕ) (l : Lookup)
      → l.depth ≤ k
      → run d l rounds ≡ run d l (take k rounds)
  unfolding run
  run-take [] zero l h = refl
  run-take [] (suc k) l h = refl
  run-take (es ∷ rounds) zero l h = let last : (l.depth == 0) ≡ true = ground arith in rw last refl
  run-take (es ∷ rounds) (suc k) l h =
      let r = play (begin_round l) es in
      let more =
        run-take rounds k (record (merge d r.lookup r.lookup.buffer) { buffer = [] })
          (omega (arith, depth-round l es)) in
      rw more refl
