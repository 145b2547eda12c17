-- ===== src/Handler/Lookup.antt =====
-- LookupRandom of crawler/net/discovery/handler.go: the table's answer and the lookup together.
use mathlib.Core.Logic.{∥∥₁_elim}
use mathlib.Core.List.{Permᴰ, Perm}
use native.Mathlib.Nat.{ℕ_set}
use node_util.Base.{
  ℕ, ◌+◌, ◌≤◌, ◌≡◌, ◌≢◌, ◌↔◌, refl, ap, ◌∙◌, true, false, inl, inr, Bool-cases, List, [], ◌∷◌, ◌++◌,
  map, some, arith, ltb, ◌==◌, length, count, count-append, map-append, one_when, All,
}
use node_util.Node.{NodeId, Enode, Node, wrap_node, wrap_nodes, unwrap_nodes}
use node_util.NetUtil.{NetUtil, Distances, DistanceLaws}
use node_util.Distance.{enodes, push}
use node_util.Distance.Ideal.{IsSorted}
use node_util.Table.State.{Table}
use node_util.Table.Ops.{entries_of, len, find_node_by_id}
use node_util.Table.Steps.{IsTable}
use node_util.Table.Find.{checked_of, candidates, find_node_by_id-IsClosest}
use node_util.Table.Random.Unique.{count-entries_of, length-entries_of, length-unwrap_nodes}
use node_util.Query.{Lookup, has, push_seeds, new_lookup, Event, merge, begin_round, play, run}
use node_util.Query.Ranked.{ids, IsRanked, play-IsSameRank, see, see-IsRanked, run-IsRanked}
use node_util.Handler.{lookup_random}

Permᴰ-count : (t : ℕ) {a b : List Node} → Permᴰ a b → count t (ids a) ≡ count t (ids b)
Permᴰ-count t Permᴰ.nil = refl
Permᴰ-count t (Permᴰ.cons e p) = rw (e, Permᴰ-count t p) refl
Permᴰ-count t (Permᴰ.swap e f) = rw (e, f) (omega arith)
Permᴰ-count t (Permᴰ.trans p q) = Permᴰ-count t p ∙ Permᴰ-count t q

count-perm : (t : ℕ) {a b : List Node} → Perm a b → count t (ids a) ≡ count t (ids b)
count-perm t p = ∥∥₁_elim p (ℕ_set _ _) (Permᴰ-count t)

count-checked_of : (t : ℕ) (ns : List Node) → count t (ids (checked_of true ns)) ≤ count t (ids ns)
unfolding checked_of
count-checked_of t [] = omega arith
count-checked_of t (n ∷ ns) = ground (arith, count-checked_of t ns)

count-candidates : (t : ℕ) (ns : List Node) → count t (ids (candidates true ns)) ≤ count t (ids ns)
unfolding candidates
count-candidates t ns = ground (arith, count-checked_of t ns)

count-unwrap :
    (t : ℕ) (ns : List Node) → count t (map (λ n. n.id) (unwrap_nodes ns)) ≡ count t (ids ns)
unfolding unwrap_nodes
count-unwrap t [] = refl
count-unwrap t (n ∷ ns) = omega (arith, count-unwrap t ns)

empty-candidates : (ns : List Node) → (length (candidates true ns) ≡ 0) ↔ (length ns ≡ 0)
unfolding candidates checked_of
empty-candidates [] = (λ e. refl, λ e. refl)
empty-candidates (n ∷ ns) = elim (Bool-cases (ltb 0 (length (checked_of true (n ∷ ns))))) [
  | inl e ↦ rw (e, candidates) (λ z. absurd (ground arith), λ z. absurd (omega arith))
  | inr e ↦ rw (e, candidates) (λ z. z, λ z. z)
]

module _ (d : Distances) (laws : DistanceLaws d) where
  -- The seeds are different nodes, and none of them was seen.
  push_seeds-IsRanked :
      (ns : List Enode) (l : Lookup)
      → ((t : ℕ) → count t (map (λ n. n.id) ns) + one_when (has t l.seen) ≤ 1)
      → IsRanked d laws l
      → IsRanked d laws (push_seeds d l ns)
  unfolding push_seeds has
  push_seeds-IsRanked [] l once ok = ok
  push_seeds-IsRanked (n ∷ ns) l once ok =
      let new : has n.id l.seen ≡ false = let at_n = once n.id in ground arith in
      push_seeds-IsRanked ns (see d laws l n) (λ t. let at_t = once t in ground arith)
        (see-IsRanked d laws l n new ok)

  -- What stays the same in all rounds.
  HasSameAim : Lookup → Lookup → Type 0
  HasSameAim l m = (m.result.target ≡ l.result.target) × (m.wants ≡ l.wants)

  push_seeds-HasSameAim : (ns : List Enode) (l : Lookup) → HasSameAim l (push_seeds d l ns)
  unfolding HasSameAim push_seeds push
  push_seeds-HasSameAim [] l = (refl, refl)
  push_seeds-HasSameAim (n ∷ ns) l = push_seeds-HasSameAim ns (see d laws l n)

  merge-HasSameAim : (ns : List Enode) (l : Lookup) → HasSameAim l (merge d l ns)
  unfolding HasSameAim merge push
  merge-HasSameAim [] l = (refl, refl)
  merge-HasSameAim (n ∷ ns) l =
      let rest = merge-HasSameAim ns (see d laws l n) in
      let same = merge-HasSameAim ns l in
      (ground (arith, rest.0, same.0), ground (arith, rest.1, same.1))

  run-HasSameAim : (rounds : List (List Event)) (l : Lookup) → HasSameAim l (run d l rounds)
  unfolding HasSameAim run begin_round
  run-HasSameAim [] l = (refl, refl)
  run-HasSameAim (es ∷ rounds) l =
      let r = play (begin_round l) es in
      let played = play-IsSameRank (begin_round l) es in
      let merged = merge-HasSameAim r.lookup.buffer r.lookup in
      let rest =
        run-HasSameAim rounds (record (merge d r.lookup r.lookup.buffer) { buffer = [] }) in
      let target : r.lookup.result.target ≡ l.result.target = ap (λ h. h.target) played.result in
      (ground (arith, target, merged.0, rest.0), ground (arith, played.wants, merged.1, rest.1))

wrapped-All :
    (d : Distances) (target k : ℕ) (ms : List Node)
    → All (λ y. k ≤ d.dist target y.id) ms
    → All (λ y. k ≤ d.dist target y.id) (wrap_nodes (unwrap_nodes ms))
unfolding wrap_nodes unwrap_nodes wrap_node
wrapped-All d target k [] h = tt
wrapped-All d target k (m ∷ ms) h = (h.0, wrapped-All d target k ms h.1)

wrapped-IsSorted :
    (d : Distances) (target : NodeId) (ns : List Node)
    → IsSorted d target ns
    → IsSorted d target (wrap_nodes (unwrap_nodes ns))
unfolding wrap_nodes unwrap_nodes wrap_node
wrapped-IsSorted d target [] s = tt
wrapped-IsSorted d target (n ∷ ns) s =
    (wrapped-All d target (d.dist target n.id) ns s.0, wrapped-IsSorted d target ns s.1)

module _ (net : NetUtil) (d : Distances) (laws : DistanceLaws d) where
  -- The seeds that the table gives.
  abbrev seeds_of : Table net → NodeId → List Node
  seeds_of t target = (find_node_by_id net d t target 16 true).entries

  seeds_once :
      (t : Table net) (target : NodeId) (id : ℕ)
      → IsTable net d t
      → count id (map (λ n. n.id) (unwrap_nodes (seeds_of t target))) ≤ 1
  seeds_once t target id ok =
      let all = entries_of net t.buckets in
      let closest = find_node_by_id-IsClosest net d laws target 16 t true in
      let whole = count-perm id closest.split in
      let parts : count id (ids (seeds_of t target ++ closest.rest))
          ≡ count id (ids (seeds_of t target)) + count id (ids closest.rest) =
        rw (map-append (λ (n : Node). n.id) (seeds_of t target) closest.rest)
          (count-append id (ids (seeds_of t target)) (ids closest.rest)) in
      let table = (count-entries_of net d t.self_id id 0 t.buckets ok.shaped).0 in
      omega (
        arith,
        whole,
        parts,
        table,
        count-candidates id all,
        count-unwrap id all,
        count-unwrap id (seeds_of t target),
      )

  some_seeds :
      (t : Table net) (target : NodeId) → 1 ≤ len net t → (length (seeds_of t target) == 0) ≡ false
  unfolding len
  some_seeds t target h =
      let all = entries_of net t.buckets in
      let closest = find_node_by_id-IsClosest net d laws target 16 t true in
      let same = length-entries_of net d t.buckets in
      let found : length (candidates true all) ≢ 0 =
        λ e. let none_there = (empty-candidates all).0 e in omega arith in
      ground (arith, closest.size)

  new_lookup-IsRanked :
      (t : Table net) (target : NodeId)
      → IsTable net d t
      → IsRanked d laws
          (new_lookup d (enodes (find_node_by_id net d t target 16 true)) target 3 16 3)
  unfolding new_lookup enodes has
  new_lookup-IsRanked t target ok =
      push_seeds-IsRanked d laws (unwrap_nodes (seeds_of t target)) _
        (λ id. let once = seeds_once t target id ok in omega arith)
        (record { sorted = tt; size = omega arith; distinct = λ id. omega arith })

  new_lookup_aim :
      (t : Table net) (target : NodeId) (rounds : List (List Event))
      → let l = new_lookup d (enodes (find_node_by_id net d t target 16 true)) target 3 16 3 in
        ((run d l rounds).result.target ≡ target) × ((run d l rounds).wants ≡ 16)
  unfolding new_lookup HasSameAim
  new_lookup_aim t target rounds =
      let seeds = enodes (find_node_by_id net d t target 16 true) in
      let first = push_seeds-HasSameAim d laws seeds _ in
      let all = run-HasSameAim d laws rounds (new_lookup d seeds target 3 16 3) in
      (all.0 ∙ first.0, all.1 ∙ first.1)

  -- On a well-formed table with an entry, LookupRandom returns nodes, whatever the queries bring:
  -- they are different nodes, 16 at most, in the order of their distance to the target.
  pub lookup_random-result :
      (t : Table net) (target : NodeId) (rounds : List (List Event))
      → IsTable net d t
      → 1 ≤ len net t
      → (nodes : List Enode) × ((lookup_random net d t target rounds ≡ some nodes)
          × (IsSorted d target (wrap_nodes nodes)
              × ((length nodes ≤ 16) × ((id : NodeId) → count id (map (λ n. n.id) nodes) ≤ 1))))
  unfolding lookup_random enodes
  lookup_random-result t target rounds ok filled =
      let l = new_lookup d (enodes (find_node_by_id net d t target 16 true)) target 3 16 3 in
      let end = run d l rounds in
      let ranked = run-IsRanked d laws rounds l (new_lookup-IsRanked t target ok) in
      let aim = new_lookup_aim t target rounds in
      let sorted = wrapped-IsSorted d end.result.target end.result.entries ranked.sorted in
      rw (some_seeds t target filled) (
        enodes end.result,
        (
          refl,
          (
            rw aim.0 at sorted,
            (
              omega (arith, length-unwrap_nodes end.result.entries, ranked.size, aim.1),
              λ id.
                  let once = ranked.distinct id in
                  let same = count-unwrap id end.result.entries in ground (arith, once, same),
            ),
          ),
        ),
      )
