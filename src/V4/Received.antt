-- ===== src/V4/Received.antt =====
-- The replies to a FINDNODE request in crawler/net/discovery/v4/findNode.go.
use node_util.Base.{ℕ, ◌+◌, List, [], ◌∷◌, leb, length, if◌then◌else◌}
use node_util.V4.{RpcNode, bucket_size}

-- The replies up to the one that completes the nodes wanted, when `n` were received before.
unfoldable pub consumed : List (List RpcNode) → ℕ → List (List RpcNode)
consumed [] n = []
consumed (r ∷ rs) n =
    let more = consumed rs (n + length r) in
    if leb bucket_size (n + length r) then r ∷ [] else r ∷ more
