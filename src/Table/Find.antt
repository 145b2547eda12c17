-- ===== src/Table/Find.antt =====
-- FindnodeByID of crawler/net/discovery/table/table.go returns the nodes closest to the target.
use node_util.Base.{
  ℕ, zero, suc, ◌≡◌, refl, ap, ◌∙◌, Bool, true, false, inl, inr, Bool-cases, List, [], ◌∷◌, ◌++◌,
  ◌&&◌, arith, ltb, if◌then◌else◌, length, take, length-take-le, length-take,
}
use node_util.Node.{NodeId, Node, is_checked}
use node_util.NetUtil.{NetUtil, Distances, DistanceLaws}
use node_util.Distance.{NodesByDistance, push}
use node_util.Distance.Ideal.{
  length-sort_onto, insert, IsSorted, sort_onto, IsClosest, insert-IsSorted, sort_onto-IsSorted,
  take-insert-take, take-IsSorted, take-sort-IsClosest,
}
use node_util.Distance.Closest.{push-insert}
use node_util.Table.State.{Bucket, Table}
use node_util.Table.Ops.{entries_of, scan_entries, scan_buckets, find_node_by_id}

-- The nodes whose liveness was checked, if the caller asks for them.
unfoldable pub checked_of : Bool → List Node → List Node
checked_of prefer [] = []
checked_of prefer (n ∷ ns) =
    if prefer && is_checked n then n ∷ checked_of prefer ns else checked_of prefer ns

checked_of_not_asked : (ns : List Node) → checked_of false ns ≡ []
unfolding checked_of
checked_of_not_asked [] = refl
checked_of_not_asked (n ∷ ns) = checked_of_not_asked ns

-- What the table answers from: the checked nodes if there are some and they are preferred, or
-- else all of its entries.
unfoldable pub candidates : Bool → List Node → List Node
candidates prefer all =
    if ltb 0 (length (checked_of prefer all)) then checked_of prefer all else all

checked_of-append :
    (prefer : Bool) (xs ys : List Node)
    → checked_of prefer (xs ++ ys) ≡ checked_of prefer xs ++ checked_of prefer ys
unfolding checked_of
checked_of-append prefer [] ys = refl
checked_of-append prefer (x ∷ xs) ys = ground (arith, checked_of-append prefer xs ys)

take-nil : (k : ℕ) → take {A = Node} k [] ≡ []
take-nil zero = refl
take-nil (suc k) = refl

-- The first `k` of some sorted nodes.
abbrev best : NodeId → ℕ → List Node → NodesByDistance
best target k all = record { entries = take k all; target = target }

module _ (d : Distances) (laws : DistanceLaws d) (target : NodeId) (k : ℕ) where
  sort_onto-append :
      (acc xs ys : List Node)
      → sort_onto d target acc (xs ++ ys) ≡ sort_onto d target (sort_onto d target acc xs) ys
  unfolding sort_onto
  sort_onto-append acc [] ys = refl
  sort_onto-append acc (x ∷ xs) ys = sort_onto-append (insert d target x acc) xs ys

  -- To keep the best `k`, the best `k` so far are all that matter.
  push-best :
      (all : List Node) (n : Node)
      → IsSorted d target all
      → push d (best target k all) n k ≡ best target k (insert d target n all)
  push-best all n s =
      push-insert d laws (best target k all) n k (take-IsSorted d target k all s)
        (length-take-le k all)
      ∙ ap (λ (es : List Node). record { entries = es; target = target })
          (take-insert-take d target k n all)

module _ (net : NetUtil) (d : Distances) (laws : DistanceLaws d) (target : NodeId) (k : ℕ) where
  scan_entries-best :
      (prefer : Bool) (a b ns : List Node)
      → IsSorted d target a
      → IsSorted d target b
      → scan_entries net d k prefer (best target k a) (best target k b) ns ≡ (
        best target k (sort_onto d target a ns),
        best target k (sort_onto d target b (checked_of prefer ns)),
      )
  unfolding scan_entries checked_of sort_onto
  scan_entries-best prefer a b [] s u = refl
  scan_entries-best prefer a b (n ∷ ns) s u = elim (Bool-cases (prefer && is_checked n)) [
    | inl live ↦
        rw (live, push-best d laws target k a n s, push-best d laws target k b n u)
          (scan_entries-best prefer (insert d target n a) (insert d target n b) ns
            (insert-IsSorted d target n a s) (insert-IsSorted d target n b u))
    | inr not_live ↦
        rw (not_live, push-best d laws target k a n s)
          (scan_entries-best prefer (insert d target n a) b ns (insert-IsSorted d target n a s) u)
  ]

  scan_buckets-best :
      (prefer : Bool) (a b : List Node) (bs : List (Bucket net))
      → IsSorted d target a
      → IsSorted d target b
      → scan_buckets net d k prefer (best target k a) (best target k b) bs ≡ (
        best target k (sort_onto d target a (entries_of net bs)),
        best target k (sort_onto d target b (checked_of prefer (entries_of net bs))),
      )
  unfolding scan_buckets entries_of
  scan_buckets-best prefer a b [] s u = unfold sort_onto checked_of in refl
  scan_buckets-best prefer a b (c ∷ bs) s u =
      rw
        (
          scan_entries-best prefer a b c.entries s u,
          checked_of-append prefer c.entries (entries_of net bs),
          sort_onto-append d laws target k a c.entries (entries_of net bs),
          sort_onto-append d laws target k b (checked_of prefer c.entries)
              (checked_of prefer (entries_of net bs)),
        )
        (scan_buckets-best prefer (sort_onto d target a c.entries)
          (sort_onto d target b (checked_of prefer c.entries)) bs
          (sort_onto-IsSorted d target a c.entries s)
          (sort_onto-IsSorted d target b (checked_of prefer c.entries) u))

  scan-best :
      (prefer : Bool) (bs : List (Bucket net))
      → scan_buckets net d k prefer
          (record { entries = []; target = target })
          (record { entries = []; target = target })
          bs
        ≡ (
          best target k (sort_onto d target [] (entries_of net bs)),
          best target k (sort_onto d target [] (checked_of prefer (entries_of net bs))),
        )
  scan-best prefer bs = rw take-nil at (scan_buckets-best prefer [] [] bs tt tt)

  chosen_all :
      (all : List Node)
      → IsClosest d target k (candidates false all) (take k (sort_onto d target [] all))
  unfolding candidates
  chosen_all all = rw (checked_of_not_asked all) (take-sort-IsClosest d target k all)

  chosen :
      (all : List Node)
      → IsClosest d target k
          (candidates true all)
          (if ltb 0 (length (take k (sort_onto d target [] (checked_of true all))))
            then best target k (sort_onto d target [] (checked_of true all))
            else best target k (sort_onto d target [] all)).entries
  unfolding candidates
  chosen all =
      let live = checked_of true all in
      let kept : List Node = take k (sort_onto d target [] live) in
      elim (Bool-cases (ltb 0 (length kept))) [
        | inl some_live ↦
            let e : ltb 0 (length live) ≡ true = ground (
              arith,
              length-take k (sort_onto d target [] live),
              length-sort_onto d target [] live,
            ) in
            rw (some_live, e) (take-sort-IsClosest d target k live)
        | inr none_live ↦ elim (Bool-cases (ltb 0 (length live))) [
          | inr absent ↦ rw (none_live, absent) (take-sort-IsClosest d target k all)
          | inl wanted ↦
              let e : k ≡ 0 = ground (
                arith,
                length-take k (sort_onto d target [] live),
                length-sort_onto d target [] live,
              ) in
              rw (none_live, wanted) (rw e (take-sort-IsClosest d target 0 live))
        ]
      ]

  -- The answer is sorted by distance and holds the closest `k` of the candidates.
  pub find_node_by_id-IsClosest :
      (t : Table net) (prefer : Bool)
      → IsClosest d target k
          (candidates prefer (entries_of net t.buckets))
          (find_node_by_id net d t target k prefer).entries
  unfolding find_node_by_id candidates
  find_node_by_id-IsClosest t true = rw scan-best (chosen (entries_of net t.buckets))
  find_node_by_id-IsClosest t false = rw scan-best (chosen_all (entries_of net t.buckets))
