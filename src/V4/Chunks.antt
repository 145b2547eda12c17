-- ===== src/V4/Chunks.antt =====
-- The packets that answer a FINDNODE request in crawler/net/discovery/v4/findNode.go.
use node_util.Base.{List, [], ◌∷◌, ◌++◌, if◌then◌else◌}
use node_util.Node.{Ip, Node}
use node_util.V4.{RpcNode}
use node_util.V4.FindNode.{Wire}

abbrev pub concat : List (List RpcNode) → List RpcNode
concat [] = []
concat (p ∷ ps) = p ++ concat ps

module _ (wire : Wire) (from_ip : Ip) where
  -- The closest nodes that may be relayed, as they are sent.
  unfoldable pub relayed : List Node → List RpcNode
  relayed [] = []
  relayed (n ∷ ns) =
      let rest = relayed ns in
      if wire.check_relay_ip from_ip n.ip then wire.node_to_rpc n ∷ rest else rest
