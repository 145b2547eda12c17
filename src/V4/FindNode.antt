-- ===== src/V4/FindNode.antt =====
-- The packets of neighbours in crawler/net/discovery/v4/findNode.go. What it calls of v4wire, netutil
-- and enode is a parameter.
use node_util.Base.{
  ℕ, ◌+◌, Bool, true, false, ◌||◌, not, List, [], ◌∷◌, ◌++◌, Option, none, some, ltb, leb, ◌==◌,
  if◌then◌else◌, length,
}
use node_util.Node.{Ip, Enode, Node}
use node_util.V4.{RpcNode, bucket_size, V4Error, failed}

-- `CheckRelayIP` "reports whether an IP relayed from the given sender IP is a valid connection
-- target"; `decode` is DecodePubkey, NewV4 and ValidateComplete.
pub record Wire : Type 0 where
  pub max_neighbors : ℕ
  pub check_relay_ip : Ip → Ip → Bool
  pub node_to_rpc : Node → RpcNode
  pub decode : RpcNode → Option Enode

module _ (wire : Wire) where
  -- What is left to send once the loop has ended.
  unfoldable pub last_chunk : List RpcNode → Bool → List (List RpcNode)
  last_chunk nodes sent = if ltb 0 (length nodes) || not sent then nodes ∷ [] else []

  -- The loop of makeFindNodesResponse over the closest nodes: the packets it sends, in order.
  unfoldable pub chunks : Ip → List Node → List RpcNode → Bool → List (List RpcNode)
  unfolding last_chunk
  chunks from_ip [] nodes sent = last_chunk nodes sent
  chunks from_ip (n ∷ ns) nodes sent =
      let grown = nodes ++ wire.node_to_rpc n ∷ [] in
      let skipped = chunks from_ip ns nodes sent in
      let flushed = grown ∷ chunks from_ip ns [] true in
      let kept = chunks from_ip ns grown sent in
      if wire.check_relay_ip from_ip n.ip
      then (if length grown == wire.max_neighbors then flushed else kept)
      else skipped

  -- `sends` says for each packet whether it is sent: an error ends the response.
  unfoldable pub deliver : List (List RpcNode) → List Bool → List (List RpcNode) × Option V4Error
  deliver [] sends = ([], none)
  deliver (p ∷ ps) [] = ([], some failed)
  deliver (p ∷ ps) (false ∷ sends) = ([], some failed)
  deliver (p ∷ ps) (true ∷ sends) = let rest = deliver ps sends in (p ∷ rest.0, rest.1)

  unfoldable pub node_from_rpc : Ip → RpcNode → Option Enode
  node_from_rpc sender rn =
      if leb rn.udp 1024
      then none
      else (if wire.check_relay_ip sender rn.ip then wire.decode rn else none)

  -- The loop of `verify` over the nodes of a reply.
  unfoldable pub take_nodes : Ip → List RpcNode → List Enode
  unfolding node_from_rpc
  take_nodes sender [] = []
  take_nodes sender (rn ∷ rns) =
      let rest = take_nodes sender rns in
      elim (node_from_rpc sender rn) [ none ↦ rest | some n ↦ n ∷ rest ]

  -- The replies that `verify` gets until it is done: the nodes, how many were received, and whether
  -- these are enough.
  unfoldable pub receive : Ip → List (List RpcNode) → List Enode → ℕ → List Enode × (ℕ × Bool)
  unfolding take_nodes
  receive sender [] nodes n = (nodes, (n, false))
  receive sender (reply ∷ replies) nodes n =
      let all = nodes ++ take_nodes sender reply in
      let total = n + length reply in
      let more = receive sender replies all total in
      if leb bucket_size total then (all, (total, true)) else more

  -- makeFindNodeRequest with the replies that come before the deadline.
  unfoldable pub make_find_node_request : Ip → List (List RpcNode) → List Enode × Option V4Error
  unfolding receive
  make_find_node_request sender replies =
      let (nodes, (received, finished)) = receive sender replies [] 0 in
      (nodes, if finished || not (received == 0) then none else some failed)
