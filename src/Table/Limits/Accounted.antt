-- ===== src/Table/Limits/Accounted.antt =====
-- The accounting of addresses for a whole table of crawler/net/discovery/table/table.go, and what a
-- change of one bucket does to it.
use node_util.Base.{
  ◌-◌, ◌∷◌, total-set, total, ℕ, zero, suc, ◌+◌, ◌≤◌, ◌≡◌, ◌≢◌, List, [], some, arith, get_elem?,
  All, All-set, All-get_elem?,
}
use node_util.Node.{Ip}
use node_util.NetUtil.{NetUtil, NetLaws}
use node_util.Table.State.{
  Bucket, Slot, Table, bucket_subnet, bucket_ip_limit, table_subnet, table_ip_limit,
}
use node_util.Table.Ops.{slot_of, put_slot}
use node_util.Table.Limits.{tally, IsCounted}

module _ (net : NetUtil) (laws : NetLaws net) where
  pub record IsFair (b : Bucket net) : Type 0 where
    pub bucket : (y : Ip) → net.members b.ips y ≤ net.limit b.ips
    pub subnet : net.subnet b.ips ≡ bucket_subnet
    pub limit : net.limit b.ips ≡ bucket_ip_limit
    pub counted :
        (y : Ip)
        → tally net (net.subnet b.ips) y b.entries + tally net (net.subnet b.ips) y b.replacements
          ≤ net.members b.ips y
    pub named : All (λ n. n.ip ≢ []) b.entries

  -- What a bucket holds in the range of an address, by the size of the table's ranges.
  abbrev pub range_load : Ip → Bucket net → ℕ
  range_load y b = tally net table_subnet y b.entries + tally net table_subnet y b.replacements

  pub record IsAccounted (t : Table net) : Type 0 where
    pub fair : All IsFair t.buckets
    pub table : (y : Ip) → net.members t.table_ips y ≤ net.limit t.table_ips
    pub table_size : net.subnet t.table_ips ≡ table_subnet
    pub table_limit : net.limit t.table_ips ≡ table_ip_limit
    pub counted : (y : Ip) → total (range_load y) t.buckets ≤ net.members t.table_ips y

  -- What the buckets hold beside one of them.
  abbrev pub beside : Table net → Bucket net → Ip → ℕ
  beside t b y = total (range_load y) t.buckets - range_load y b

  pub range_load-le-total :
      (y : Ip) (bs : List (Bucket net)) (i : ℕ) (b : Bucket net)
      → get_elem? bs i ≡ some b
      → range_load y b ≤ total (range_load y) bs
  range_load-le-total y [] i b e = cc
  range_load-le-total y (c ∷ cs) zero b e = let same : c ≡ b = ground arith in rw same (omega arith)
  range_load-le-total y (c ∷ cs) (suc i) b e = omega (arith, range_load-le-total y cs i b e)

  pub to_slot :
      (t : Table net) (i : ℕ) (b : Bucket net)
      → get_elem? t.buckets i ≡ some b
      → IsAccounted t
      → IsCounted net laws (beside t b) (slot_of net t b)
  to_slot t i b at ok =
      let own = All-get_elem? IsFair t.buckets i b ok.fair at in
      record {
        bounded = record {
          bucket = own.bucket;
          table = ok.table;
          subnet = own.subnet;
          limit = own.limit;
          table_size = ok.table_size;
          table_limit = ok.table_limit;
        };
        counted = λ y. (
          own.counted y,
          rw ok.table_size (omega (arith, ok.counted y, range_load-le-total y t.buckets i b at)),
        );
        named = own.named;
        room = rw ok.table_limit (omega arith);
      }

  pub put_slot-IsAccounted :
      (t : Table net) (i : ℕ) (b : Bucket net) (s : Slot net)
      → get_elem? t.buckets i ≡ some b
      → IsAccounted t
      → IsCounted net laws (beside t b) s
      → IsAccounted (put_slot net t i s)
  put_slot-IsAccounted t i b s at ok new = record {
    fair = All-set IsFair t.buckets i s.bucket ok.fair (record {
      bucket = new.bounded.bucket;
      subnet = new.bounded.subnet;
      limit = new.bounded.limit;
      counted = λ y. (new.counted y).0;
      named = new.named;
    });
    table = new.bounded.table;
    table_size = new.bounded.table_size;
    table_limit = new.bounded.table_limit;
    counted = λ y.
        let moved = total-set (range_load y) t.buckets i b s.bucket at in
        let here : range_load y s.bucket + beside t b y ≤ net.members s.table_ips y =
          rw new.bounded.table_size at ((new.counted y).1) in
        omega (arith, moved, here, range_load-le-total y t.buckets i b at);
  }

  -- A change of neither the buckets nor the set.
  pub as_before :
      (t u : Table net)
      → u.buckets ≡ t.buckets
      → u.table_ips ≡ t.table_ips
      → IsAccounted t
      → IsAccounted u
  as_before t u same_buckets same_ips ok = record {
    fair = rw same_buckets ok.fair;
    table = rw same_ips ok.table;
    table_size = rw same_ips ok.table_size;
    table_limit = rw same_ips ok.table_limit;
    counted = λ y. rw (same_buckets, same_ips) (ok.counted y);
  }
