-- ===== src/Node.antt =====
-- crawler/net/discovery/common/node.go: the node that the table, the seeker and the crawler share.
-- An enode.Node is a signed record of a third party; the fields here are what its accessors
-- (ID, IP, UDP, Seq) return. IDs are 32-byte arrays, compared whole: numbers below 2 ^ 256.
use node_util.Base.{ℕ, ◌+◌, ◌*◌, ◌%◌, ◌<◌, ◌≡◌, Bool, true, false, List, map, leb, ltb, arith}
use node_util.Base.Int.{ℤ, pos, negsuc, u64, to_int64, to_uint64, to_uint64-to_int64}

abbrev pub NodeId : Type 0
NodeId = ℕ

-- A `net.IP` is a byte slice, empty for a node without an address.
abbrev pub Ip : Type 0
Ip = List ℕ

pub record Enode : Type 0 where
  pub id : NodeId
  pub ip : Ip
  pub udp : ℕ
  pub seq : ℕ

pub record Node : Type 0 where
  pub enode : Enode
  pub open enode use *
  pub added_at : ℕ
  pub liveness_checks : ℕ

-- `n.SetTimestamp(ts)` and `n.GetAddedAt()`, with times as Unix seconds.
unfoldable pub set_timestamp : Node → ℤ → Node
set_timestamp n ts = record n { added_at = to_uint64 ts }

unfoldable pub get_added_at : Node → ℤ
get_added_at n = to_int64 n.added_at

unfoldable pub bump : Node → Node
bump n = record n { liveness_checks = (n.liveness_checks + 1) % u64 }

unfoldable pub bump_x : Node → ℤ → Node
bump_x n i = record n { liveness_checks = (n.liveness_checks + to_uint64 i) % u64 }

unfoldable pub get_count : Node → ℤ
get_count n = to_int64 n.liveness_checks

-- `n.GetCount() > 0`
unfoldable pub is_checked : Node → Bool
unfolding get_count to_int64
is_checked n = elim (get_count n) [ pos k ↦ ltb 0 k | negsuc k ↦ false ]

-- `now.Sub(n.GetAddedAt()) >= d`, with `now` and `d` in nanoseconds.
unfoldable pub older_than : Node → ℕ → ℕ → Bool
unfolding get_added_at to_int64
older_than n d now = elim (get_added_at n) [
  | pos s ↦ leb (s * 1_000_000_000 + d) now
  | negsuc s ↦ true
]

unfoldable pub wrap_node : Enode → Node
wrap_node e = record { enode = e; added_at = 0; liveness_checks = 0 }

unfoldable pub wrap_nodes : List Enode → List Node
unfolding wrap_node
wrap_nodes = map wrap_node

unfoldable pub unwrap_nodes : List Node → List Enode
unwrap_nodes = map (λ n. n.enode)

-- A node rebuilt around a newer record with `SetTimestamp` and `BumpX` of the old node's values.
unfoldable pub renew : Node → Enode → Node
unfolding set_timestamp get_added_at bump_x get_count wrap_node
renew last e = bump_x (set_timestamp (wrap_node e) (get_added_at last)) (get_count last)

-- Renewing a node keeps its age and its liveness count, whatever they are.
pub renew_keeps :
    (last : Node) (e : Enode)
    → last.added_at < u64
    → last.liveness_checks < u64
    → renew last e
      ≡ record { enode = e; added_at = last.added_at; liveness_checks = last.liveness_checks }
unfolding renew
renew_keeps last e ha hc =
    ground (arith, to_uint64-to_int64 last.liveness_checks, to_uint64-to_int64 last.added_at)
