-- ===== src/Table/State.antt =====
-- The constants and records of crawler/net/discovery/table/table.go.
use node_util.Base.{ℕ, ◌-◌, ◌/◌, ◌*◌, Bool, List}
use node_util.Node.{NodeId, Node}
use node_util.NetUtil.{NetUtil}

abbrev pub bucket_size : ℕ
bucket_size = 16

abbrev pub max_replacements : ℕ
max_replacements = 10

abbrev pub hash_bits : ℕ
hash_bits = 32 * 8

abbrev pub n_buckets : ℕ
n_buckets = hash_bits / 15

abbrev pub bucket_min_distance : ℕ
bucket_min_distance = hash_bits - n_buckets

-- In nanoseconds.
abbrev pub seed_min_table_time : ℕ
seed_min_table_time = 5 * 60 * 1_000_000_000

abbrev pub bucket_ip_limit : ℕ
bucket_ip_limit = 2

abbrev pub bucket_subnet : ℕ
bucket_subnet = 24

abbrev pub table_ip_limit : ℕ
table_ip_limit = 10

abbrev pub table_subnet : ℕ
table_subnet = 24

pub data HookType : Type 0 where
  added seen removed : HookType

module _ (net : NetUtil) where
  pub record Bucket : Type 0 where
    pub entries : List Node
    pub replacements : List Node
    pub ips : net.DistinctNetSet

  -- What a method changes while it works on the bucket `b`: the bucket, and the table's addresses.
  pub record Slot : Type 0 where
    pub bucket : Bucket
    pub open bucket use *
    pub table_ips : net.DistinctNetSet

  -- `hooked` collects the calls of the hook, the latest last; `stored` those of db.UpdateNode.
  pub record Table : Type 0 where
    pub buckets : List Bucket
    pub nursery : List Node
    pub table_ips : net.DistinctNetSet
    pub self_id : NodeId
    pub init_done : Bool
    pub has_hook : Bool
    pub hooked : List (HookType × Node)
    pub stored : List Node
