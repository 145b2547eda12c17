-- ===== src/V4.antt =====
-- crawler/net/discovery/v4: config.go, error.go and the state of handler.go. V4/Bond has the bonds and
-- faults of handler.go, V4/Requests what handler.go, findNode.go, enr.go and pingpong.go do on a
-- packet or a call; the other children prove. The packets of go-ethereum's v4wire are given by
-- the fields that are used.
pub mod Bond
pub mod FindNode
pub mod Requests
pub mod Faults
pub mod Chunks
pub mod Received
pub mod Guards
mod Tests
use node_util.Base.{ℕ, Bool, true, false, ◌||◌, not, List, ltb, if◌then◌else◌}
use node_util.Base.Int.{ℤ, pos, negsuc}
use node_util.Node.{NodeId, Ip, Enode, Node}

pub record Config : Type 0 where
  pub neighbour_amount : ℤ
  pub response_enr : Bool
  pub response_find_node : Bool

abbrev pub bucket_size : ℕ
bucket_size = 16

unfoldable pub default_config : Config
default_config = record {
  neighbour_amount = pos bucket_size;
  response_enr = true;
  response_find_node = true;
}

unfoldable pub validate : Config → Config
validate c = elim c.neighbour_amount [
  | pos n ↦ if ltb 16 n then record c { neighbour_amount = pos bucket_size } else c
  | negsuc n ↦ record c { neighbour_amount = pos bucket_size }
]

-- `failed` stands for the errors of other packages.
pub data V4Error : Type 0 where
  unknown_packet : V4Error
  wrong_packet : V4Error
  expired : V4Error
  unsolicited_reply : V4Error
  unknown_node : V4Error
  low_port : V4Error
  bond_failure : V4Error
  handler_disabled : V4Error
  failed : V4Error

unfoldable pub is_important : V4Error → Bool
is_important handler_disabled = false
is_important wrong_packet = false
is_important unknown_packet = false
is_important expired = false
is_important _ = true

-- v4wire.Node, with the key as a number.
pub record RpcNode : Type 0 where
  pub key : ℕ
  pub ip : Ip
  pub udp : ℕ
  pub tcp : ℕ

pub data Packet : Type 0 where
  ping : (from_tcp expiration enr_seq : ℕ) → Packet
  pong : (reply_tok expiration enr_seq : ℕ) → Packet
  findnode : (target expiration : ℕ) → Packet
  neighbors : List RpcNode → (expiration : ℕ) → Packet
  enr_request : (expiration : ℕ) → Packet
  enr_response : (reply_tok : ℕ) → Enode → Packet

-- What is used of enode.DB: the times of the last ping and pong from an address. "LastPingReceived
-- retrieves the time of the last ping packet received from a remote node", and so for pongs.
pub record Database : Type 1 where
  pub Db : Type 0
  pub last_ping : Db → NodeId → Ip → ℕ
  pub last_pong : Db → NodeId → Ip → ℕ
  pub update_ping : Db → NodeId → Ip → ℕ → Db
  pub update_pong : Db → NodeId → Ip → ℕ → Db
  pub find_fails : Db → NodeId → Ip → ℕ

-- `sent` lists the packets sent to nodes and `seen` the calls of the table's AddSeenNode, the latest
-- first.
pub record Handler (data_base : Database) : Type 0 where
  pub config : Config
  pub store : data_base.Db
  pub failure_map : List (NodeId × ℕ)
  pub sent : List (NodeId × Packet)
  pub seen : List Node
