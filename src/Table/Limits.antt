-- ===== src/Table/Limits.antt =====
-- The accounting of addresses in crawler/net/discovery/table/table.go: the nodes of a bucket against
-- the addresses that its set counts.
pub mod Kept
pub mod Bumped
pub mod Accounted
pub mod Filled
use node_util.Base.{
  ℕ, zero, suc, ◌+◌, ◌-◌, ◌≤◌, ◌<◌, ◌≡◌, ◌≢◌, ◌⊎◌, refl, ◌∙◌, ap, subst, Bool, true, false, inl,
  inr, Bool-cases, Option-cases, List, [], ◌∷◌, ◌++◌, none, some, arith, ltb, leb, ◌==◌,
  if◌then◌else◌, length, init, get_last?, get_elem?, take, drop, All,
}
use node_util.Node.{NodeId, Node, Ip}
use node_util.NetUtil.{NetUtil, NetLaws, one_if}
use node_util.Table.State.{Slot, bucket_subnet, bucket_ip_limit, table_subnet, table_ip_limit}
use node_util.Table.Lists.{delete_node, find_entry, push_node, contains}
use node_util.Table.Buckets.{add_ip, remove_ip, drop_removed, add_replacement}
use node_util.Table.Frame.{
  entries-add_ip, replacements-add_ip, entries-remove_ip, replacements-remove_ip,
}
use node_util.Table.Buckets.{
  with_entries, with_ips, move_to_front, bump_in_bucket, see_in_bucket, verify_new,
  verify_in_bucket,
}
use node_util.Table.Addresses.{
  tracked, Counts, Same, add_ip-Same, remove_ip-Same, add_ip-Counts, remove_ip-Counts,
}

module _ (net : NetUtil) (sub : ℕ) (y : Ip) where
  -- How many tracked nodes of a list share the range of `y`.
  unfoldable pub tally : List Node → ℕ
  tally [] = 0
  tally (n ∷ ns) = tracked net sub n.ip y + tally ns

  pub tally-append : (ns ms : List Node) → tally (ns ++ ms) ≡ tally ns + tally ms
  unfolding tally
  tally-append [] ms = omega arith
  tally-append (n ∷ ns) ms = omega (arith, tally-append ns ms)

  pub tally-delete_node-le : (ns : List Node) (n : Node) → tally (delete_node ns n) ≤ tally ns
  unfolding tally delete_node
  tally-delete_node-le [] n = omega arith
  tally-delete_node-le (x ∷ xs) n = ground (arith, tally-delete_node-le xs n)

  pub tally-init :
      (ns : List Node) (r : Node)
      → get_last? ns ≡ some r
      → tally ns ≡ tally (init ns) + tracked net sub r.ip y
  unfolding tally
  tally-init [] r h = cc
  tally-init (x ∷ []) r h = let e : x ≡ r = ground arith in rw e (omega arith)
  tally-init (x ∷ z ∷ ns) r h = omega (arith, tally-init (z ∷ ns) r h)

  -- The entry that is found counts once, and the others stay.
  pub tally-moved :
      (ns : List Node) (id : NodeId) (i : ℕ) (e : Node)
      → find_entry ns id ≡ some (i, e)
      → tally ns ≡ tracked net sub e.ip y + tally (take i ns ++ drop (suc i) ns)
  unfolding tally find_entry
  tally-moved [] id i e h = cc
  tally-moved (x ∷ xs) id i e h = elim (Bool-cases (x.id == id)) [
    | inl hit ↦
        let at : 0 ≡ i = ground arith in let found : x ≡ e = ground arith in rw (← at, ← found) refl
    | inr miss ↦ elim (Option-cases (find_entry xs id)) [
      | inl absent ↦ absurd (ground arith)
      | inr ((j, z), found) ↦
          let at : suc j ≡ i = ground arith in
          let same : z ≡ e = ground arith in
          let rest = tally-moved xs id j z found in rw (← at, ← same) (omega (arith, rest))
    ]
  ]

module _ (net : NetUtil) where
  pub record IsBounded (s : Slot net) : Type 0 where
    pub bucket : (y : Ip) → net.members s.ips y ≤ net.limit s.ips
    pub table : (y : Ip) → net.members s.table_ips y ≤ net.limit s.table_ips
    pub subnet : net.subnet s.ips ≡ bucket_subnet
    pub limit : net.limit s.ips ≡ bucket_ip_limit
    pub table_size : net.subnet s.table_ips ≡ table_subnet
    pub table_limit : net.limit s.table_ips ≡ table_ip_limit

module _ (net : NetUtil) (laws : NetLaws net) where
  -- An address is accepted only below both limits.
  pub add_ip-room :
      (s : Slot net) (x : Ip)
      → (add_ip net s x).1 ≡ true
      → net.is_lan x ≡ false
      → (net.members s.ips x < net.limit s.ips)
        × (net.members s.table_ips x < net.limit s.table_ips)
  unfolding add_ip
  add_ip-room s [] h lan = cc
  add_ip-room s (x ∷ xs) h lan = (
    ground (arith, laws.add_accepts s.ips (x ∷ xs), laws.add_accepts s.table_ips (x ∷ xs)),
    ground (arith, laws.add_accepts s.ips (x ∷ xs), laws.add_accepts s.table_ips (x ∷ xs)),
  )

  pub add_ip-IsBounded :
      (s : Slot net) (x : Ip) → IsBounded net s → IsBounded net (add_ip net s x).0
  add_ip-IsBounded s x ok =
      let counts = add_ip-Counts net laws s x in
      let same = add_ip-Same net laws s x in
      let room = add_ip-room s x in
      record {
        bucket = λ y. ground (
          arith,
          ok.bucket y,
          counts.bucket y,
          same.bucket_limit,
          room,
          laws.members_same s.ips x y,
        );
        table = λ y. ground (
          arith,
          ok.table y,
          counts.table y,
          same.table_limit,
          room,
          laws.members_same s.table_ips x y,
        );
        subnet = same.bucket_subnet ∙ ok.subnet;
        limit = same.bucket_limit ∙ ok.limit;
        table_size = same.table_subnet ∙ ok.table_size;
        table_limit = same.table_limit ∙ ok.table_limit;
      }

  pub remove_ip-IsBounded :
      (s : Slot net) (x : Ip) → IsBounded net s → IsBounded net (remove_ip net s x)
  remove_ip-IsBounded s x ok =
      let same = remove_ip-Same net laws s x in
      record {
        bucket = λ y.
            let less = (remove_ip-Counts net laws s x y).1 in
            let here = ok.bucket y in ground (arith, same.bucket_limit);
        table = λ y.
            let less = (remove_ip-Counts net laws s x y).0 in
            let here = ok.table y in ground (arith, same.table_limit);
        subnet = same.bucket_subnet ∙ ok.subnet;
        limit = same.bucket_limit ∙ ok.limit;
        table_size = same.table_subnet ∙ ok.table_size;
        table_limit = same.table_limit ∙ ok.table_limit;
      }

  abbrev pub with_ip : (ℕ → Ip → ℕ) → Ip → ℕ → Ip → ℕ
  with_ip T x sub y = T sub y + tracked net sub x y

  -- The nodes of a bucket, as far as addresses count.
  abbrev pub load_of : List Node → List Node → ℕ → Ip → ℕ
  load_of es rs sub y = tally net sub y es + tally net sub y rs

  -- An accepted node has an address.
  pub fits_named : (s : Slot net) (x : Ip) → (add_ip net s x).1 ≡ true → x ≢ []
  unfolding add_ip
  fits_named s [] h = cc
  fits_named s (x ∷ xs) h = λ e. cc

-- `elsewhere` is what the other buckets hold in the range of an address.
module _ (net : NetUtil) (laws : NetLaws net) (elsewhere : Ip → ℕ) where
  -- What the two sets count at least, for an address and the size of a subnet.
  abbrev pub Holds : Slot net → (ℕ → Ip → ℕ) → Type 0
  Holds s T =
      (y : Ip)
      → (T (net.subnet s.ips) y ≤ net.members s.ips y)
        × (T (net.subnet s.table_ips) y + elsewhere y ≤ net.members s.table_ips y)

  pub Holds-fits :
      (s : Slot net) (x : Ip) (T : ℕ → Ip → ℕ)
      → (add_ip net s x).1 ≡ true
      → Holds s T
      → Holds (add_ip net s x).0 (with_ip net laws T x)
  Holds-fits s x T fits h y =
      let counts = add_ip-Counts net laws s x in
      let same = add_ip-Same net laws s x in
      let here = h y in
      (
        rw same.bucket_subnet (ground (arith, counts.bucket y, fits, here.0)),
        rw same.table_subnet (ground (arith, counts.table y, fits, here.1)),
      )

  pub Holds-full :
      (s : Slot net) (x : Ip) (T : ℕ → Ip → ℕ)
      → (add_ip net s x).1 ≡ false
      → Holds s T
      → Holds (add_ip net s x).0 T
  Holds-full s x T full h y =
      let counts = add_ip-Counts net laws s x in
      let same = add_ip-Same net laws s x in
      let here = h y in
      (
        rw same.bucket_subnet (ground (arith, counts.bucket y, full, here.0)),
        rw same.table_subnet (ground (arith, counts.table y, full, here.1)),
      )

  pub Holds-remove_ip :
      (s : Slot net) (x : Ip) (T : ℕ → Ip → ℕ)
      → Holds s (with_ip net laws T x)
      → Holds (remove_ip net s x) T
  Holds-remove_ip s x T h y =
      let counts = remove_ip-Counts net laws s x y in
      let same = remove_ip-Same net laws s x in
      let here = h y in
      (
        rw same.bucket_subnet (omega (arith, counts.1, here.0)),
        rw same.table_subnet (omega (arith, counts.0, here.1)),
      )

  pub record IsCounted (s : Slot net) : Type 0 where
    pub bounded : IsBounded net s
    pub counted : Holds s (load_of net laws s.entries s.replacements)
    pub named : All (λ n. n.ip ≢ []) s.entries
    pub room : 1 ≤ net.limit s.table_ips

  pub add_ip-IsCounted :
      (s : Slot net) (x : Ip)
      → (add_ip net s x).1 ≡ false
      → IsCounted s
      → IsCounted (add_ip net s x).0
  add_ip-IsCounted s x full ok = record {
    bounded = add_ip-IsBounded net laws s x ok.bounded;
    counted =
        rw (entries-add_ip net s x, replacements-add_ip net s x)
          (Holds-full s x (load_of net laws s.entries s.replacements) full ok.counted);
    named = rw (entries-add_ip net s x) ok.named;
    room = rw (add_ip-Same net laws s x).table_limit ok.room;
  }

  -- A slot whose sets stand for other lists than its own.
  pub record IsCountedAs (s : Slot net) (es rs : List Node) : Type 0 where
    pub bounded : IsBounded net s
    pub counted : Holds s (load_of net laws es rs)
    pub named : All (λ n. n.ip ≢ []) es
    pub room : 1 ≤ net.limit s.table_ips

  pub fits-IsCountedAs :
      (s : Slot net) (n : Node) (es rs : List Node)
      → (add_ip net s n.ip).1 ≡ true
      → IsCounted s
      → All (λ m. m.ip ≢ []) es
      → ((sub : ℕ) (y : Ip)
          → load_of net laws es rs sub y
            ≤ with_ip net laws (load_of net laws s.entries s.replacements) n.ip sub y)
      → IsCountedAs (add_ip net s n.ip).0 es rs
  fits-IsCountedAs s n es rs fits ok named less = record {
    bounded = add_ip-IsBounded net laws s n.ip ok.bounded;
    counted = λ y.
        let here =
          Holds-fits s n.ip (load_of net laws s.entries s.replacements) fits ok.counted y in
        let few = less (net.subnet (add_ip net s n.ip).0.ips) y in
        let few_of_table = less (net.subnet (add_ip net s n.ip).0.table_ips) y in
        (omega (arith, here.0, few), omega (arith, here.1, few_of_table));
    named = named;
    room = rw (add_ip-Same net laws s n.ip).table_limit ok.room;
  }

  pub as_own :
      (s : Slot net) (es rs : List Node)
      → IsCountedAs s es rs
      → IsCounted (with_entries net s es rs)
  as_own s es rs ok = record {
    bounded = record {
      bucket = ok.bounded.bucket;
      table = ok.bounded.table;
      subnet = ok.bounded.subnet;
      limit = ok.bounded.limit;
      table_size = ok.bounded.table_size;
      table_limit = ok.bounded.table_limit;
    };
    counted = ok.counted;
    named = ok.named;
    room = ok.room;
  }
