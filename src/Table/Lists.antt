-- ===== src/Table/Lists.antt =====
-- contains, pushNode and deleteNode of crawler/net/discovery/table/table.go, and the move to the
-- front in bumpInBucket.
use node_util.Base.{
  ℕ, suc, Bool, true, false, List, [], ◌∷◌, Option, none, some, ltb, ◌==◌, if◌then◌else◌, length,
  get_last?, init,
}
use node_util.Node.{NodeId, Node}

unfoldable pub contains : List Node → NodeId → Bool
contains [] id = false
contains (n ∷ ns) id = if n.id == id then true else contains ns id

-- The new list, and the node that fell off its end. `max` is positive in every call: with 0 and an
-- empty list the source reads out of range.
unfoldable pub push_node : List Node → Node → ℕ → List Node × Option Node
push_node list n max =
    if ltb (length list) max then (n ∷ list, none) else (n ∷ init list, get_last? list)

unfoldable pub delete_node : List Node → Node → List Node
delete_node [] n = []
delete_node (x ∷ xs) n = if x.id == n.id then xs else x ∷ delete_node xs n

-- The index of the first node with an ID, and that node.
unfoldable pub find_entry : List Node → NodeId → Option (ℕ × Node)
find_entry [] id = none
find_entry (x ∷ xs) id =
    if x.id == id
    then some (0, x)
    else elim (find_entry xs id) [ none ↦ none | some (i, y) ↦ some (suc i, y) ]
