-- ===== src/NetUtil.antt =====
-- What crawler/net/discovery/table/table.go uses of two third parties: go-ethereum's netutil
-- (DistinctNetSet, IsLAN) with net.IP.Equal, and the distances of its enode package.
use Prim.Native.Nat.{compare, Ordering}
use node_util.Base.{[], ℕ, ◌+◌, ◌-◌, ◌≤◌, ◌≡◌, Bool, true, false, ltb}
use node_util.Node.{NodeId, Ip}

pub record NetUtil : Type 1 where
  pub DistinctNetSet : Type 0
  -- `DistinctNetSet{Subnet: s, Limit: l}`
  pub empty : ℕ → ℕ → DistinctNetSet
  pub subnet : DistinctNetSet → ℕ
  pub limit : DistinctNetSet → ℕ
  -- how many tracked addresses share the range of an address
  pub members : DistinctNetSet → Ip → ℕ
  pub add : DistinctNetSet → Ip → DistinctNetSet × Bool
  pub remove : DistinctNetSet → Ip → DistinctNetSet
  -- whether two addresses fall into one range, for the size of a subnet
  pub same_net : ℕ → Ip → Ip → Bool
  pub is_lan : Ip → Bool
  pub ip_equal : Ip → Ip → Bool

abbrev pub one_if : Bool → ℕ
one_if true = 1
one_if false = 0

-- The documented behaviour: "DistinctNetSet tracks IPs, ensuring that at most N of them fall into
-- the same network range"; Add "returns false (and doesn't add the IP) if the number of existing
-- IPs in the defined range exceeds the limit"; Equal "reports whether ip and x are the same IP
-- address".
module _ (net : NetUtil) where
  open net use {empty, subnet, limit, members, add, remove, same_net, is_lan, ip_equal}

  pub record NetLaws : Type 0 where
    pub members-empty : (s l : ℕ) (x : Ip) → members (empty s l) x ≡ 0
    pub members_same :
        (d : net.DistinctNetSet) (a x : Ip)
        → same_net (subnet d) a x ≡ true
        → members d a ≡ members d x
    pub add_accepts : (d : net.DistinctNetSet) (a : Ip) → (add d a).1 ≡ ltb (members d a) (limit d)
    pub add_refused : (d : net.DistinctNetSet) (a : Ip) → (add d a).1 ≡ false → (add d a).0 ≡ d
    pub members-add :
        (d : net.DistinctNetSet) (a x : Ip)
        → (add d a).1 ≡ true
        → members (add d a).0 x ≡ members d x + one_if (same_net (subnet d) a x)
    pub members-remove :
        (d : net.DistinctNetSet) (a x : Ip)
        → members (remove d a) x ≡ members d x - one_if (same_net (subnet d) a x)
    pub subnet-empty : (s l : ℕ) → subnet (empty s l) ≡ s
    pub subnet-add : (d : net.DistinctNetSet) (a : Ip) → subnet (add d a).0 ≡ subnet d
    pub subnet-remove : (d : net.DistinctNetSet) (a : Ip) → subnet (remove d a) ≡ subnet d
    pub limit-empty : (s l : ℕ) → limit (empty s l) ≡ l
    pub limit-add : (d : net.DistinctNetSet) (a : Ip) → limit (add d a).0 ≡ limit d
    pub limit-remove : (d : net.DistinctNetSet) (a : Ip) → limit (remove d a) ≡ limit d
    pub equal_net : (s : ℕ) (a b x : Ip) → ip_equal a b ≡ true → same_net s a x ≡ same_net s b x
    pub same_refl : (s : ℕ) (a : Ip) → same_net s a a ≡ true
    pub equal_empty : (a b : Ip) → ip_equal a b ≡ true → a ≡ [] → b ≡ []
    pub equal_lan : (a b : Ip) → ip_equal a b ≡ true → is_lan a ≡ is_lan b

-- `LogDist` is the logarithmic distance of two IDs, `DistCmp t a b` compares the distances of `a`
-- and `b` to `t`: lt for -1, eq for 0 and gt for 1. `dist` is the distance that both are about.
pub record Distances : Type 0 where
  pub dist : NodeId → NodeId → ℕ
  pub log_dist : NodeId → NodeId → ℕ
  pub dist_cmp : NodeId → NodeId → NodeId → Ordering

-- "DistCmp compares the distances a->target and b->target"; "LogDist returns the logarithmic
-- distance between a and b", which is at most the number of bits of an ID.
pub record DistanceLaws (d : Distances) : Type 0 where
  pub dist_cmp_lem : (t a b : NodeId) → d.dist_cmp t a b ≡ compare (d.dist t a) (d.dist t b)
  pub log_dist-le : (a b : NodeId) → d.log_dist a b ≤ 256
