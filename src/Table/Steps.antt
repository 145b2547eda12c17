-- ===== src/Table/Steps.antt =====
-- What happens to a table of crawler/net/discovery/table/table.go over its life: calls of its
-- methods, each under the lock, in any order.
use native.Mathlib.Nat.{add-zero, zero-add}
use node_util.Base.{
  sym, ◌∙◌, subst, ℕ, zero, suc, ◌+◌, ◌≤◌, ◌<◌, ◌≡◌, ◌≢◌, refl, Bool, true, false, inl, inr,
  Bool-cases, List, [], ◌∷◌, Option, none, some, arith, ◌==◌, length, get_elem?, set, length-set,
  get_elem?-of_lt, not,
}
use node_util.Base.Int.{ℤ}
use node_util.Node.{NodeId, Node, bump}
use node_util.NetUtil.{NetUtil, NetLaws, Distances, DistanceLaws}
use node_util.Table.State.{Bucket, Slot, Table, HookType, added, seen, removed, n_buckets}
use node_util.Table.Bounds.{IsWellFormed}
use node_util.Table.Shape.{
  IsShaped, see_in_bucket-IsShaped, delete_in_bucket-IsShaped, replace-IsShaped,
  bump_in_bucket-IsShaped,
}
use node_util.Table.Verified.{verify_in_bucket-IsShaped}
use node_util.Table.Ops.{
  after_replace, bucket_at_distance, hook_node, slot_of, put_slot, finish_revalidate, bucket_index,
  added_hook, add_seen_node, add_verified_node, delete, copy_live_nodes,
}

-- The source's index never leaves the array of buckets.
pub bucket_at_distance-lt : (d : ℕ) → d ≤ 256 → bucket_at_distance d < n_buckets
unfolding bucket_at_distance
bucket_at_distance-lt d h = ground arith

module _ (net : NetUtil) (d : Distances) where
  pub data Step (t u : Table net) : Type 0 where
    seen_step : (n : Node) (ts : ℤ) → add_seen_node net d t n ts ≡ some u → Step t u
    verified_step : (n : Node) (ts : ℤ) → add_verified_node net d t n ts ≡ some u → Step t u
    deleted_step : (n : Node) → delete net d t n ≡ some u → Step t u
    -- `last` was taken from the bucket at `bi`, perhaps long ago.
    revalidated_step :
        (last : Node) (bi : ℕ) (failed : Bool) (k : ℕ)
        → bucket_index net d t last.id ≡ bi
        → last.id ≢ t.self_id
        → finish_revalidate net t last bi failed k ≡ some u
        → Step t u
    copied_step : (now : ℕ) → u ≡ copy_live_nodes net t now → Step t u
    initialised_step : u ≡ record t { init_done = true } → Step t u

  pub data Reach (t : Table net) : Table net → Type 0 where
    here : Reach t t
    next : {u v : Table net} → Reach t u → Step u v → Reach t v

  -- The bucket of an ID that is not the table's own.
  abbrev pub Belongs : NodeId → ℕ → NodeId → Type 0
  Belongs self i id = (bucket_at_distance (d.log_dist self id) ≡ i) × (id ≢ self)

  abbrev pub AllShaped : NodeId → ℕ → List (Bucket net) → Type 0
  AllShaped self i [] = Unit {0}
  AllShaped self i (b ∷ bs) =
      IsWellFormed (Belongs self i) b.entries b.replacements × AllShaped self (suc i) bs

  pub record IsTable (t : Table net) : Type 0 where
    pub count : length t.buckets ≡ n_buckets
    pub shaped : AllShaped t.self_id 0 t.buckets

  AllShaped-get :
      (self : NodeId) (i j : ℕ) (bs : List (Bucket net)) (b : Bucket net)
      → AllShaped self i bs
      → get_elem? bs j ≡ some b
      → IsWellFormed (Belongs self (i + j)) b.entries b.replacements
  AllShaped-get self i j [] b h at = cc
  AllShaped-get self i zero (c ∷ bs) b h at =
      let same : c ≡ b = ground arith in
      rw add-zero (subst (λ x. IsWellFormed (Belongs self i) x.entries x.replacements) same h.0)
  AllShaped-get self i (suc j) (c ∷ bs) b h at =
      let e : i + suc j ≡ suc i + j = omega arith in rw e (AllShaped-get self (suc i) j bs b h.1 at)

  AllShaped-set :
      (self : NodeId) (i j : ℕ) (bs : List (Bucket net)) (b : Bucket net)
      → AllShaped self i bs
      → IsWellFormed (Belongs self (i + j)) b.entries b.replacements
      → AllShaped self i (set bs j b)
  AllShaped-set self i j [] b h ok = tt
  AllShaped-set self i zero (c ∷ bs) b h ok = (rw add-zero at ok, h.1)
  AllShaped-set self i (suc j) (c ∷ bs) b h ok =
      let e : i + suc j ≡ suc i + j = omega arith in
      (h.0, AllShaped-set self (suc i) j bs b h.1 (rw e at ok))

  bucket-IsShaped :
      (t : Table net) (j : ℕ) (b : Bucket net)
      → IsTable t
      → get_elem? t.buckets j ≡ some b
      → IsShaped net (Belongs t.self_id j) (slot_of net t b)
  bucket-IsShaped t j b ok at =
      subst (λ k. IsWellFormed (Belongs t.self_id k) b.entries b.replacements) (zero-add j)
        (AllShaped-get t.self_id 0 j t.buckets b ok.shaped at)

  put_slot-IsTable :
      (t : Table net) (j : ℕ) (s : Slot net)
      → IsTable t
      → IsShaped net (Belongs t.self_id j) s
      → IsTable (put_slot net t j s)
  put_slot-IsTable t j s ok fits = record {
    count = length-set t.buckets j s.bucket ∙ ok.count;
    shaped = AllShaped-set t.self_id 0 j t.buckets s.bucket ok.shaped (rw zero-add fits);
  }

  hook_node-IsTable :
      (t : Table net) (n : Node) (kind : HookType) → IsTable t → IsTable (hook_node net t n kind)
  unfolding hook_node
  hook_node-IsTable t n kind ok = elim (Bool-cases t.has_hook) [
    | inl on ↦ simp on (record { count = ok.count; shaped = ok.shaped })
    | inr off ↦ simp off ok
  ]

  self_id-hook_node :
      (t : Table net) (n : Node) (kind : HookType) → (hook_node net t n kind).self_id ≡ t.self_id
  unfolding hook_node
  self_id-hook_node t n kind = ground arith

  after_replace-IsTable :
      (t : Table net) (last : Node) (r : Option Node)
      → IsTable t
      → IsTable (after_replace net t last r)
  unfolding after_replace
  after_replace-IsTable t last none ok = hook_node-IsTable t last removed ok
  after_replace-IsTable t last (some r) ok = ok

  copy_live_nodes-IsTable :
      (t : Table net) (now : ℕ) → IsTable t → IsTable (copy_live_nodes net t now)
  unfolding copy_live_nodes
  copy_live_nodes-IsTable t now ok = record { count = ok.count; shaped = ok.shaped }

  added_hook-IsTable :
      (t : Table net) (fits : Bool) (n : Node) (ts : ℤ)
      → IsTable t
      → IsTable (added_hook net d t fits n ts)
  added_hook-IsTable t true n ts ok = hook_node-IsTable t _ added ok
  added_hook-IsTable t false n ts ok = ok

  -- The call does not panic, and leaves a well-formed table.
  abbrev pub Returns : Option (Table net) → Type 0
  Returns none = ⊥
  Returns (some u) = IsTable u

  Returns-some : {r : Option (Table net)} (u : Table net) → r ≡ some u → Returns r → IsTable u
  Returns-some u e ok = subst Returns e ok

module _ (net : NetUtil) (laws : NetLaws net) (d : Distances) (dist : DistanceLaws d) where
  -- the bucket of an ID is there
  bucket_found :
      (t : Table net) (id : NodeId)
      → IsTable net d t
      → (b : Bucket net) × (get_elem? t.buckets (bucket_index net d t id) ≡ some b)
  bucket_found t id ok =
      get_elem?-of_lt t.buckets _
        (omega (arith, ok.count, bucket_at_distance-lt _ (dist.log_dist-le t.self_id id)))

  pub add_seen_node-Returns :
      (t : Table net) (n : Node) (ts : ℤ)
      → IsTable net d t
      → Returns net d (add_seen_node net d t n ts)
  unfolding add_seen_node
  add_seen_node-Returns t n ts ok = elim (Bool-cases (n.id == t.self_id)) [
    | inl own ↦ rw (own, Returns) ok
    | inr other ↦
        let t' = hook_node net t n seen in
        let ok' = hook_node-IsTable net d t n seen ok in
        let not_own : n.id ≢ t'.self_id =
          rw (self_id-hook_node net d t n seen) (λ (same : n.id ≡ t.self_id). ground arith) in
        let (b, found) = bucket_found t' n.id ok' in
        rw (other, found)
          (added_hook-IsTable net d _ _ n ts (
            put_slot-IsTable net d t' _ _ ok' (
              see_in_bucket-IsShaped net _ _ n ts (refl, not_own)
                (bucket-IsShaped net d t' _ b ok' found))))
  ]

  pub add_verified_node-Returns :
      (t : Table net) (n : Node) (ts : ℤ)
      → IsTable net d t
      → Returns net d (add_verified_node net d t n ts)
  unfolding add_verified_node
  add_verified_node-Returns t n ts ok = elim (Bool-cases (not t.init_done)) [
    | inl early ↦ rw (early, Returns) ok
    | inr ready ↦ elim (Bool-cases (n.id == t.self_id)) [
      | inl own ↦ rw (ready, own, Returns) ok
      | inr other ↦
          let not_own : n.id ≢ t.self_id = λ same. ground arith in
          let (b, found) = bucket_found t n.id ok in
          rw (ready, other, found)
            (added_hook-IsTable net d _ _ n ts (
              put_slot-IsTable net d t _ _ ok (
                verify_in_bucket-IsShaped net laws _ _ n ts (refl, not_own)
                  (bucket-IsShaped net d t _ b ok found))))
    ]
  ]

  pub delete-Returns :
      (t : Table net) (n : Node) → IsTable net d t → Returns net d (delete net d t n)
  unfolding delete
  delete-Returns t n ok =
      let (b, found) = bucket_found t n.id ok in
      rw found (
        put_slot-IsTable net d t _ _ ok
          (delete_in_bucket-IsShaped net _ _ n (bucket-IsShaped net d t _ b ok found)))

  pub finish_revalidate-Returns :
      (t : Table net) (last : Node) (failed : Bool) (k : ℕ)
      → last.id ≢ t.self_id
      → IsTable net d t
      → Returns net d (finish_revalidate net t last (bucket_index net d t last.id) failed k)
  unfolding finish_revalidate bump
  finish_revalidate-Returns t last false k other ok =
      let (b, found) = bucket_found t last.id ok in
      rw found (
        put_slot-IsTable net d t _ _ ok (
          bump_in_bucket-IsShaped net _ _ (bump last) (refl, other)
            (bucket-IsShaped net d t _ b ok found)))
  finish_revalidate-Returns t last true k other ok =
      let (b, found) = bucket_found t last.id ok in
      rw found (
        after_replace-IsTable net d _ last _ (
          put_slot-IsTable net d t _ _ ok
            (replace-IsShaped net _ _ last k (bucket-IsShaped net d t _ b ok found))))

  -- Whatever the calls, in whatever order, the table stays well formed.
  pub Step-IsTable : {t u : Table net} → Step net d t u → IsTable net d t → IsTable net d u
  Step-IsTable {t} {u} (seen_step n ts e) ok =
      Returns-some net d u e (add_seen_node-Returns t n ts ok)
  Step-IsTable {t} {u} (verified_step n ts e) ok =
      Returns-some net d u e (add_verified_node-Returns t n ts ok)
  Step-IsTable {t} {u} (deleted_step n e) ok = Returns-some net d u e (delete-Returns t n ok)
  Step-IsTable {t} {u} (revalidated_step last bi failed k at other e) ok =
      Returns-some net d u (rw (← at) at e) (finish_revalidate-Returns t last failed k other ok)
  Step-IsTable {t} {u} (copied_step now e) ok =
      subst (IsTable net d) (sym e) (copy_live_nodes-IsTable net d t now ok)
  Step-IsTable {t} {u} (initialised_step e) ok =
      subst (IsTable net d) (sym e) (record { count = ok.count; shaped = ok.shaped })
