-- ===== src/Table/Random/Unique.antt =====
-- The nodes that ReadRandomNodes of crawler/net/discovery/table/table.go gives are different nodes of
-- the table.
use node_util.Base.{
  ℕ, zero, suc, ◌+◌, ◌≤◌, ◌<◌, ◌≡◌, ◌≢◌, refl, ap, true, false, inl, inr, Bool-cases, Option-cases,
  List, [], ◌∷◌, ◌++◌, map, some, arith, ◌==◌, length, length-append, length-set, get_elem?, set,
  take, length-take, count, one_when, min, All, ◌∙◌,
}
use node_util.Node.{NodeId, Enode, Node, unwrap_nodes}
use node_util.NetUtil.{NetUtil, Distances}
use node_util.Table.State.{Bucket, Table}
use node_util.Table.Ops.{entries_of, len_of, len, bucket_at_distance}
use node_util.Table.Distinct.{Fresh, Distinct}
use node_util.Table.Steps.{Belongs, AllShaped, IsTable}
use node_util.Table.Random.{swap, shuffle, read_random_nodes}

abbrev pub ids : List Enode → List NodeId
ids = map (λ n. n.id)

count-set :
    (t : NodeId) (xs : List Enode) (i : ℕ) (a v : Enode)
    → get_elem? xs i ≡ some a
    → count t (ids (set xs i v)) + one_when (t == a.id) ≡ count t (ids xs) + one_when (t == v.id)
count-set t [] i a v h = cc
count-set t (x ∷ xs) zero a v h = ground arith
count-set t (x ∷ xs) (suc i) a v h = omega (arith, count-set t xs i a v h)

-- A write of the value that a place has keeps it there.
get_elem?-set :
    (xs : List Enode) (i j : ℕ) (b : Enode)
    → get_elem? xs j ≡ some b
    → get_elem? (set xs i b) j ≡ some b
get_elem?-set [] i j b h = cc
get_elem?-set (x ∷ xs) zero zero b h = refl
get_elem?-set (x ∷ xs) zero (suc j) b h = h
get_elem?-set (x ∷ xs) (suc i) zero b h = h
get_elem?-set (x ∷ xs) (suc i) (suc j) b h = get_elem?-set xs i j b h

swap_keeps :
    (t : NodeId) (xs : List Enode) (i j : ℕ)
    → (count t (ids (swap xs i j)) ≡ count t (ids xs)) × (length (swap xs i j) ≡ length xs)
unfolding swap
swap_keeps t xs i j = elim (Option-cases (get_elem? xs i)) [
  | inl out ↦ rw (out, swap) (refl, refl)
  | inr (a, at_i) ↦ elim (Option-cases (get_elem? xs j)) [
    | inl out ↦ rw (at_i, swap, out) (refl, refl)
    | inr (b, at_j) ↦
        let first = count-set t xs i a b at_i in
        let second = count-set t (set xs i b) j b a (get_elem?-set xs i j b at_j) in
        rw (at_i, swap, at_j)
          (omega (arith, first, second), length-set (set xs i b) j a ∙ length-set xs i b)
  ]
]

shuffle_keeps :
    (t : NodeId) (xs : List Enode) (i : ℕ) (js : List ℕ)
    → (count t (ids (shuffle xs i js)) ≡ count t (ids xs)) × (length (shuffle xs i js) ≡ length xs)
unfolding shuffle
shuffle_keeps t xs i [] = (refl, refl)
shuffle_keeps t xs i (j ∷ js) =
    let rest = shuffle_keeps t (swap xs i j) (suc i) js in
    let first = swap_keeps t xs i j in (rest.0 ∙ first.0, rest.1 ∙ first.1)

count-take-le :
    (t : NodeId) (k : ℕ) (xs : List Enode) → count t (ids (take k xs)) ≤ count t (ids xs)
count-take-le t zero xs = omega arith
count-take-le t (suc k) [] = omega arith
count-take-le t (suc k) (x ∷ xs) = omega (arith, count-take-le t k xs)

count-Fresh : (t : NodeId) (ns : List Node) → Fresh t ns → count t (ids (unwrap_nodes ns)) ≡ 0
unfolding unwrap_nodes
count-Fresh t [] h = refl
count-Fresh t (n ∷ ns) h =
    let other : n.id ≢ t = h.0 in
    let miss : (t == n.id) ≡ false = elim (Bool-cases (t == n.id)) [
      | inl same ↦ absurd (other (ground arith))
      | inr differs ↦ differs
    ] in
    rw miss (omega (arith, count-Fresh t ns h.1))

count-Distinct : (t : NodeId) (ns : List Node) → Distinct ns → count t (ids (unwrap_nodes ns)) ≤ 1
unfolding unwrap_nodes
count-Distinct t [] h = omega arith
count-Distinct t (n ∷ ns) h = elim (Bool-cases (t == n.id)) [
  | inr other ↦ rw other (omega (arith, count-Distinct t ns h.1))
  | inl same ↦
      let is : n.id ≡ t = ground arith in
      let rest = count-Fresh t ns (rw is at h.0) in rw same (omega (arith, rest))
]

count-unwrap-append :
    (t : NodeId) (ns ms : List Node)
    → count t (ids (unwrap_nodes (ns ++ ms)))
      ≡ count t (ids (unwrap_nodes ns)) + count t (ids (unwrap_nodes ms))
unfolding unwrap_nodes
count-unwrap-append t [] ms = omega arith
count-unwrap-append t (n ∷ ns) ms = omega (arith, count-unwrap-append t ns ms)

module _ (net : NetUtil) (d : Distances) where
  placed-Fresh :
      (self t : NodeId) (i : ℕ) (ns : List Node)
      → bucket_at_distance (d.log_dist self t) ≢ i
      → All (λ n. Belongs net d self i n.id) ns
      → Fresh t ns
  placed-Fresh self t i [] other h = tt
  placed-Fresh self t i (n ∷ ns) other h =
      (λ (same : n.id ≡ t). other (rw same at h.0.0), placed-Fresh self t i ns other h.1)

  -- An ID stands at most once in the table, and only from its bucket on.
  pub count-entries_of :
      (self t : NodeId) (i : ℕ) (bs : List (Bucket net))
      → AllShaped net d self i bs
      → (count t (ids (unwrap_nodes (entries_of net bs))) ≤ 1)
        × (bucket_at_distance (d.log_dist self t) < i
            → count t (ids (unwrap_nodes (entries_of net bs))) ≡ 0)
  unfolding entries_of unwrap_nodes
  count-entries_of self t i [] h = (omega arith, λ e. refl)
  count-entries_of self t i (b ∷ bs) h =
      let rest = count-entries_of self t (suc i) bs h.1 in
      let sum = count-unwrap-append t b.entries (entries_of net bs) in
      let own = count-Distinct t b.entries h.0.entries_distinct in
      elim (Bool-cases (bucket_at_distance (d.log_dist self t) == i)) [
        | inl here ↦
            let is : bucket_at_distance (d.log_dist self t) ≡ i = ground arith in
            let none_later = rest.1 (omega arith) in
            (omega (arith, sum, own, none_later), λ e. absurd (omega arith))
        | inr elsewhere ↦
            let not_here =
              count-Fresh t b.entries
                (placed-Fresh self t i b.entries (λ e. ground arith) h.0.entries_placed) in
            (
              omega (arith, sum, not_here, rest.0),
              λ e.
                  let none_later = rest.1 (omega arith) in omega (arith, sum, not_here, none_later),
            )
      ]

  pub length-entries_of : (bs : List (Bucket net)) → length (entries_of net bs) ≡ len_of net bs
  unfolding entries_of len_of
  length-entries_of [] = refl
  length-entries_of (b ∷ bs) =
      omega (arith, length-append b.entries (entries_of net bs), length-entries_of bs)

pub length-unwrap_nodes : (ns : List Node) → length (unwrap_nodes ns) ≡ length ns
unfolding unwrap_nodes
length-unwrap_nodes [] = refl
length-unwrap_nodes (n ∷ ns) = ap suc (length-unwrap_nodes ns)

-- On a well-formed table that is initialised, whatever the random source picks, ReadRandomNodes
-- gives as many nodes as the buffer holds, or all that there are; they are nodes of the table, and
-- none is given twice.
pub read_random_nodes_unique :
    (net : NetUtil) (d : Distances) (t : Table net) (size : ℕ) (picks : List ℕ) (id : NodeId)
    → IsTable net d t
    → t.init_done ≡ true
    → (length (read_random_nodes net t size picks) ≡ min size (len net t))
      × ((count id (ids (read_random_nodes net t size picks))
            ≤ count id (ids (unwrap_nodes (entries_of net t.buckets))))
          × (count id (ids (read_random_nodes net t size picks)) ≤ 1))
unfolding read_random_nodes len
read_random_nodes_unique net d t size picks id ok ready =
    let nodes = unwrap_nodes (entries_of net t.buckets) in
    let kept = shuffle_keeps id nodes 0 picks in
    let cut = count-take-le id size (shuffle nodes 0 picks) in
    let once = (count-entries_of net d t.self_id id 0 t.buckets ok.shaped).0 in
    rw ready (
      omega (
        arith,
        length-take size (shuffle nodes 0 picks),
        kept.1,
        length-unwrap_nodes (entries_of net t.buckets),
        length-entries_of net d t.buckets,
      ),
      (omega (arith, cut, kept.0), omega (arith, cut, kept.0, once)),
    )
