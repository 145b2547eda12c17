-- ===== src/Distance.antt =====
-- NodesByDistance of crawler/net/discovery/common/node.go, a list of nodes kept in the order of their
-- distance to a target. sort.Search is written out as the standard library has it.
pub mod Search
pub mod Ideal
pub mod Closest
use Prim.Native.Nat.{Ordering}
use node_util.Base.{
  ℕ, zero, suc, ◌+◌, ◌/◌, Bool, true, false, List, [], ◌∷◌, ◌++◌, none, some, ltb, if◌then◌else◌,
  length, get_elem?, init, take, drop,
}
use node_util.Node.{NodeId, Enode, Node, unwrap_nodes}
use node_util.NetUtil.{Distances}

-- for i < j { h := (i+j)/2; if !f(h) { i = h+1 } else { j = h } }: each round halves j - i, so a fuel
-- above j - i is enough.
unfoldable pub search_loop : ℕ → (ℕ → Bool) → ℕ → ℕ → ℕ
search_loop zero f i j = i
search_loop (suc fuel) f i j =
    let h = (i + j) / 2 in
    let right = search_loop fuel f (h + 1) j in
    let left = search_loop fuel f i h in if ltb i j then (if f h then left else right) else i

unfoldable pub search : ℕ → (ℕ → Bool) → ℕ
unfolding search_loop
search n f = search_loop (suc n) f 0 n

pub record NodesByDistance : Type 0 where
  pub entries : List Node
  pub target : NodeId

unfoldable pub enodes : NodesByDistance → List Enode
unfolding unwrap_nodes
enodes h = unwrap_nodes h.entries

-- The slide writes over the entry that was just appended, or over the last one.
unfoldable pub slide : List Node → ℕ → Node → List Node
slide entries ix n = take ix entries ++ (n ∷ init (drop ix entries))

-- The rest of Push once the index is found.
unfoldable pub place : List Node → ℕ → Node → ℕ → List Node
unfolding slide
place entries ix n max_elems =
    let grown = if ltb (length entries) max_elems then entries ++ n ∷ [] else entries in
    if ltb ix (length entries) then slide grown ix n else grown

module _ (d : Distances) where
  -- `enode.DistCmp(h.Target, h.entries[i].ID(), n.ID()) > 0`
  abbrev pub is_farther : NodeId → List Node → NodeId → ℕ → Bool
  is_farther target entries id i = elim (get_elem? entries i) [
    | none ↦ false
    | some e ↦ elim (d.dist_cmp target e.id id) [ Ordering.gt ↦ true | _ ↦ false ]
  ]

  unfoldable pub push : NodesByDistance → Node → ℕ → NodesByDistance
  unfolding search place
  push h n max_elems =
      let ix = search (length h.entries) (is_farther h.target h.entries n.id) in
      record h { entries = place h.entries ix n max_elems }
