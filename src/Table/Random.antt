-- ===== src/Table/Random.antt =====
-- ReadRandomNodes of crawler/net/discovery/table/table.go.
pub mod Unique
use node_util.Base.{
  ℕ, suc, Bool, List, [], ◌∷◌, Option, none, some, if◌then◌else◌, get_elem?, set, take,
}
use node_util.Node.{Enode, unwrap_nodes}
use node_util.NetUtil.{NetUtil}
use node_util.Table.State.{Table}
use node_util.Table.Ops.{entries_of}

-- `nodes[i], nodes[j] = nodes[j], nodes[i]`
unfoldable pub swap : List Enode → ℕ → ℕ → List Enode
swap nodes i j = elim (get_elem? nodes i) [
  | none ↦ nodes
  | some a ↦ elim (get_elem? nodes j) [ none ↦ nodes | some b ↦ set (set nodes i b) j a ]
]

-- The i-th round swaps with the pick of rand.Intn, which is in range.
unfoldable pub shuffle : List Enode → ℕ → List ℕ → List Enode
unfolding swap
shuffle nodes i [] = nodes
shuffle nodes i (j ∷ js) = shuffle (swap nodes i j) (suc i) js

-- What the call writes to the front of a buffer of `size` nodes; `picks` are those of all rounds.
unfoldable pub read_random_nodes : (net : NetUtil) → Table net → ℕ → List ℕ → List Enode
unfolding shuffle
read_random_nodes net t size picks =
    if t.init_done
    then take size (shuffle (unwrap_nodes (entries_of net t.buckets)) 0 picks)
    else []
