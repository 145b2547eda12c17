-- ===== src/Table/Limits/Filled.antt =====
-- The limit of addresses in the buckets of a table of crawler/net/discovery/table/table.go, while
-- nodes are added and found alive.
use node_util.Base.{
  refl, total, some_inj, sym, ℕ, zero, suc, ◌+◌, ◌≤◌, ◌≡◌, subst, Bool, true, false, not, inl, inr,
  Bool-cases, Option-cases, List, [], ◌∷◌, ◌++◌, Option, none, some, arith, ◌==◌, get_elem?,
  replicate, All, All-get_elem?,
}
use node_util.Base.Int.{ℤ}
use node_util.Node.{NodeId, Node, Enode, Ip, bump}
use node_util.NetUtil.{NetUtil, NetLaws, Distances}
use node_util.Table.State.{
  Bucket, Table, HookType, added, seen, bucket_subnet, bucket_ip_limit, table_subnet,
  table_ip_limit,
}
use node_util.Table.Ops.{
  initial_limits, limits_after, set_limits, new_table, all_valid, hook_node, finish_revalidate,
  bucket_index, added_hook, add_seen_node, add_verified_node, copy_live_nodes,
}
use node_util.Table.Limits.Accounted.{
  to_slot, put_slot-IsAccounted, as_before, IsFair, IsAccounted, range_load,
}
use node_util.Table.Limits.{tally}
use node_util.Table.Limits.Kept.{see_in_bucket-IsCounted}
use node_util.Table.Limits.Bumped.{bump_in_bucket-IsCounted, verify_in_bucket-IsCounted}

module _ (net : NetUtil) (d : Distances) where
  -- The calls that add nodes or find them alive; delete and a failed revalidation are left out, as
  -- they give back the address of their argument, not that of the entry.
  pub data Fill (t u : Table net) : Type 0 where
    seen_fill : (n : Node) (ts : ℤ) → add_seen_node net d t n ts ≡ some u → Fill t u
    verified_fill : (n : Node) (ts : ℤ) → add_verified_node net d t n ts ≡ some u → Fill t u
    alive_fill :
        (last : Node) (bi k : ℕ) → finish_revalidate net t last bi false k ≡ some u → Fill t u
    copied_fill : (now : ℕ) → u ≡ copy_live_nodes net t now → Fill t u
    initialised_fill : u ≡ record t { init_done = true } → Fill t u

  pub data Filled (t : Table net) : Table net → Type 0 where
    unfilled : Filled t t
    filled : {u v : Table net} → Filled t u → Fill u v → Filled t v

-- Every call of NewTable that does not ignore the limits leaves them.
limits_after-kept :
    (before : List Bool) (ignore : Bool)
    → All (λ ignored. ignored ≡ false) (before ++ ignore ∷ [])
    → (limits_after initial_limits before ≡ initial_limits) × (ignore ≡ false)
unfolding limits_after set_limits
limits_after-kept [] ignore kept = (refl, kept.0)
limits_after-kept (b ∷ before) ignore kept =
    let rest = limits_after-kept before ignore kept.1 in (rw kept.0 rest.0, rest.1)

module _ (net : NetUtil) (laws : NetLaws net) (d : Distances) where
  hook_node-IsAccounted :
      (t : Table net) (n : Node) (kind : HookType)
      → IsAccounted net laws t
      → IsAccounted net laws (hook_node net t n kind)
  unfolding hook_node
  hook_node-IsAccounted t n kind ok = elim (Bool-cases t.has_hook) [
    | inl on ↦ simp on (as_before net laws t _ refl refl ok)
    | inr off ↦ simp off ok
  ]

  added_hook-IsAccounted :
      (t : Table net) (fits : Bool) (n : Node) (ts : ℤ)
      → IsAccounted net laws t
      → IsAccounted net laws (added_hook net d t fits n ts)
  added_hook-IsAccounted t true n ts ok = hook_node-IsAccounted t _ added ok
  added_hook-IsAccounted t false n ts ok = ok

  -- Of a call that returns.
  abbrev Keeps : Option (Table net) → Type 0
  Keeps none = Unit {0}
  Keeps (some u) = IsAccounted net laws u

  add_seen_node-Keeps :
      (t : Table net) (n : Node) (ts : ℤ)
      → IsAccounted net laws t
      → Keeps (add_seen_node net d t n ts)
  unfolding add_seen_node
  add_seen_node-Keeps t n ts ok = elim (Bool-cases (n.id == t.self_id)) [
    | inl own ↦ rw (own, Keeps) ok
    | inr other ↦
        let t' = hook_node net t n seen in
        let ok' = hook_node-IsAccounted t n seen ok in
        let i = bucket_index net d t' n.id in
        elim (Option-cases (get_elem? t'.buckets i)) [
          | inl out ↦ rw (other, out) tt
          | inr (b, at) ↦
              rw (other, at)
                (added_hook-IsAccounted _ _ n ts (
                  put_slot-IsAccounted net laws t' i b _ at ok'
                    (see_in_bucket-IsCounted net laws _ _ n ts (to_slot net laws t' i b at ok'))))
        ]
  ]

  add_verified_node-Keeps :
      (t : Table net) (n : Node) (ts : ℤ)
      → IsAccounted net laws t
      → Keeps (add_verified_node net d t n ts)
  unfolding add_verified_node
  add_verified_node-Keeps t n ts ok = elim (Bool-cases (not t.init_done)) [
    | inl early ↦ rw (early, Keeps) ok
    | inr ready ↦ elim (Bool-cases (n.id == t.self_id)) [
      | inl own ↦ rw (ready, own, Keeps) ok
      | inr other ↦
          let i = bucket_index net d t n.id in
          elim (Option-cases (get_elem? t.buckets i)) [
            | inl out ↦ rw (ready, other, out) tt
            | inr (b, at) ↦
                rw (ready, other, at)
                  (added_hook-IsAccounted _ _ n ts (
                    put_slot-IsAccounted net laws t i b _ at ok (
                      verify_in_bucket-IsCounted net laws _ _ n ts (to_slot net laws t i b at ok))))
          ]
    ]
  ]

  alive-Keeps :
      (t : Table net) (last : Node) (bi k : ℕ)
      → IsAccounted net laws t
      → Keeps (finish_revalidate net t last bi false k)
  unfolding finish_revalidate
  alive-Keeps t last bi k ok = elim (Option-cases (get_elem? t.buckets bi)) [
    | inl out ↦ rw out tt
    | inr (b, at) ↦ rw at (
        put_slot-IsAccounted net laws t bi b _ at ok
          (bump_in_bucket-IsCounted net laws _ _ (bump last) (to_slot net laws t bi b at ok)))
  ]

  Fill-IsAccounted :
      {t u : Table net} → Fill net d t u → IsAccounted net laws t → IsAccounted net laws u
  unfolding copy_live_nodes
  Fill-IsAccounted {t} {u} (seen_fill n ts e) ok = subst Keeps e (add_seen_node-Keeps t n ts ok)
  Fill-IsAccounted {t} {u} (verified_fill n ts e) ok =
      subst Keeps e (add_verified_node-Keeps t n ts ok)
  Fill-IsAccounted {t} {u} (alive_fill last bi k e) ok = subst Keeps e (alive-Keeps t last bi k ok)
  Fill-IsAccounted {t} {u} (copied_fill now e) ok =
      subst (IsAccounted net laws) (sym e) (as_before net laws t _ refl refl ok)
  Fill-IsAccounted {t} {u} (initialised_fill e) ok =
      subst (IsAccounted net laws) (sym e) (as_before net laws t _ refl refl ok)

  Filled-IsAccounted :
      {t u : Table net} → IsAccounted net laws t → Filled net d t u → IsAccounted net laws u
  Filled-IsAccounted ok unfilled = ok
  Filled-IsAccounted ok (filled r st) = Fill-IsAccounted st (Filled-IsAccounted ok r)

  fresh-IsFair :
      (n : ℕ)
      → All (IsFair net laws) (
          replicate n (record {
            entries = [];
            replacements = [];
            ips = net.empty bucket_subnet bucket_ip_limit;
          }))
  unfolding tally
  fresh-IsFair zero = tt
  fresh-IsFair (suc n) = (
    record {
      bucket = λ y. rw (laws.members-empty bucket_subnet bucket_ip_limit y) (omega arith);
      subnet = laws.subnet-empty bucket_subnet bucket_ip_limit;
      limit = laws.limit-empty bucket_subnet bucket_ip_limit;
      counted = λ y. omega arith;
      named = tt;
    },
    fresh-IsFair n,
  )

  total-fresh :
      (y : Ip) (n : ℕ)
      → total (range_load net laws y) (
          replicate n (record {
            entries = [];
            replacements = [];
            ips = net.empty bucket_subnet bucket_ip_limit;
          }))
        ≡ 0
  unfolding tally
  total-fresh y zero = refl
  total-fresh y (suc n) = omega (arith, total-fresh y n)

  new_table-IsAccounted :
      (validate : Enode → Bool) (self : NodeId) (boot : List Enode) (hook : Bool) {t : Table net}
      → (new_table net validate initial_limits self boot false hook).1 ≡ some t
      → IsAccounted net laws t
  unfolding new_table initial_limits set_limits
  new_table-IsAccounted validate self boot hook e =
      elim (Bool-cases (all_valid net validate boot)) [
        | inl good ↦ subst (IsAccounted net laws) (some_inj (rw good at e)) (record {
          fair = fresh-IsFair 17;
          table = λ y. rw (laws.members-empty table_subnet table_ip_limit y) (omega arith);
          table_size = laws.subnet-empty table_subnet table_ip_limit;
          table_limit = laws.limit-empty table_subnet table_ip_limit;
          counted = λ y. omega (arith, total-fresh y 17);
        })
        | inr bad ↦ absurd (cc (rw bad at e))
      ]

  -- However many calls of AddSeenNode, addVerifiedNode and successful revalidations have filled a
  -- table, no bucket holds more than two nodes, and all buckets together no more than ten, entries and
  -- replacements counted, whose addresses lie in one /24 network; addresses of local networks do not
  -- count. This is so if neither the call of NewTable that made the table nor any before it in the
  -- process was told to ignore the limits.
  pub Filled-limit :
      (before : List Bool) (validate : Enode → Bool) (self : NodeId) (boot : List Enode)
      (ignore hook : Bool) {t u : Table net} (i : ℕ) (b : Bucket net) (y : Ip)
      → All (λ ignored. ignored ≡ false) (before ++ ignore ∷ [])
      → (new_table net validate (limits_after initial_limits before) self boot ignore hook).1
        ≡ some t
      → Filled net d t u
      → get_elem? u.buckets i ≡ some b
      → (tally net 24 y b.entries + tally net 24 y b.replacements ≤ 2)
        × (total (λ c. tally net 24 y c.entries + tally net 24 y c.replacements) u.buckets ≤ 10)
  Filled-limit before validate self boot ignore hook {t} {u} i b y kept made calls at =
      let (limited, now) = limits_after-kept before ignore kept in
      let ok =
        Filled-IsAccounted
          (new_table-IsAccounted validate self boot hook (rw (limited, now) at made)) calls in
      let own = All-get_elem? (IsFair net laws) u.buckets i b ok.fair at in
      let counted = rw own.subnet at (own.counted y) in
      (
        omega (arith, counted, own.bucket y, own.limit),
        omega (arith, ok.counted y, ok.table y, ok.table_limit),
      )
