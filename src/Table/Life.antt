-- ===== src/Table/Life.antt =====
-- The whole life of a table of crawler/net/discovery/table/table.go: NewTable, then any calls.
use node_util.Base.{
  some_inj, ℕ, zero, suc, ◌≡◌, ◌≢◌, refl, subst, Bool, inl, inr, Bool-cases, List, [], Option, none,
  some, arith, replicate,
}
use node_util.Base.Int.{ℤ}
use node_util.Node.{NodeId, Node, Enode}
use node_util.NetUtil.{NetUtil, NetLaws, Distances, DistanceLaws}
use node_util.Table.State.{Table}
use node_util.Table.Ops.{
  Limits, set_limits, new_table, all_valid, add_seen_node, add_verified_node, delete,
  finish_revalidate, bucket_index,
}
use node_util.Table.Steps.{
  Reach, here, next, IsTable, AllShaped, Returns, Step-IsTable, add_seen_node-Returns,
  add_verified_node-Returns, delete-Returns, finish_revalidate-Returns,
}

module _ (net : NetUtil) (d : Distances) where
  AllShaped-replicate :
      (self : NodeId) (i n : ℕ) (ips : net.DistinctNetSet)
      → AllShaped net d self i (replicate n (record { entries = []; replacements = []; ips = ips }))
  AllShaped-replicate self i zero ips = tt
  AllShaped-replicate self i (suc n) ips = (
    record {
      entries_fit = omega arith;
      replacements_fit = omega arith;
      entries_distinct = tt;
      replacements_distinct = tt;
      apart = tt;
      entries_placed = tt;
      replacements_placed = tt;
    },
    AllShaped-replicate self (suc i) n ips,
  )

  -- NewTable, when it accepts the bootstrap nodes, makes a well-formed table.
  pub new_table-IsTable :
      (validate : Enode → Bool) (limits : Limits) (self : NodeId) (boot : List Enode)
      (ignore hook : Bool) {t : Table net}
      → (new_table net validate limits self boot ignore hook).1 ≡ some t
      → IsTable net d t
  unfolding new_table
  new_table-IsTable validate limits self boot ignore hook e =
      elim (Bool-cases (all_valid net validate boot)) [
        | inl good ↦ subst (IsTable net d) (some_inj (rw good at e)) (record {
          count = refl;
          shaped = AllShaped-replicate self 0 17 (
              net.empty (set_limits limits ignore).bucket_subnet
                (set_limits limits ignore).bucket_ip_limit);
        })
        | inr bad ↦ absurd (cc (rw bad at e))
      ]

module _ (net : NetUtil) (laws : NetLaws net) (d : Distances) (dist : DistanceLaws d) where
  Reach-IsTable : {t u : Table net} → IsTable net d t → Reach net d t u → IsTable net d u
  Reach-IsTable ok here = ok
  Reach-IsTable ok (next r st) = Step-IsTable net laws d dist st (Reach-IsTable ok r)

  -- After NewTable and any calls of its methods, in any order and with any answers of the network,
  -- a table has its 17 buckets; each holds at most 16 entries and 10 replacements, no ID twice, and
  -- only nodes whose distance belongs there, never the table's own.
  pub Reach-new_table :
      (validate : Enode → Bool) (limits : Limits) (self : NodeId) (boot : List Enode)
      (ignore hook : Bool) {t u : Table net}
      → (new_table net validate limits self boot ignore hook).1 ≡ some t
      → Reach net d t u
      → IsTable net d u
  Reach-new_table validate limits self boot ignore hook made r =
      Reach-IsTable (new_table-IsTable net d validate limits self boot ignore hook made) r

  Returns-ne-none : (r : Option (Table net)) → Returns net d r → r ≢ none
  Returns-ne-none none h = absurd h
  Returns-ne-none (some u) h = λ e. cc

  -- On a well-formed table no method reads a bucket out of range: none of the calls panics.
  pub calls_return :
      (t : Table net) (n : Node) (ts : ℤ) (failed : Bool) (k : ℕ)
      → IsTable net d t
      → n.id ≢ t.self_id
      → (add_seen_node net d t n ts ≢ none)
        × (add_verified_node net d t n ts ≢ none)
        × (delete net d t n ≢ none)
        × (finish_revalidate net t n (bucket_index net d t n.id) failed k ≢ none)
  calls_return t n ts failed k ok other = (
    Returns-ne-none _ (add_seen_node-Returns net laws d dist t n ts ok),
    Returns-ne-none _ (add_verified_node-Returns net laws d dist t n ts ok),
    Returns-ne-none _ (delete-Returns net laws d dist t n ok),
    Returns-ne-none _ (finish_revalidate-Returns net laws d dist t n failed k other ok),
  )
