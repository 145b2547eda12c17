-- ===== src/Table/Ops.antt =====
-- The methods of Table in crawler/net/discovery/table/table.go. `none` is a panic, the index of a
-- bucket out of range. Times are Unix seconds; what time.Now, the random source, the database and
-- the network give is an argument.
use node_util.Base.{
  ℕ, suc, ◌+◌, ◌-◌, Bool, true, false, not, ◌&&◌, List, [], ◌∷◌, ◌++◌, Option, none, some, ◌==◌,
  leb, ltb, ◌>>=◌, if◌then◌else◌, length, get_elem?, get_last?, set, replicate,
}
use node_util.Base.Int.{ℤ}
use node_util.Node.{
  NodeId, Enode, Node, set_timestamp, bump, is_checked, older_than, wrap_nodes, renew,
}
use node_util.NetUtil.{NetUtil, Distances}
use node_util.Distance.{NodesByDistance, push}
use node_util.Table.State.{
  Bucket, Slot, Table, HookType, added, seen, removed, n_buckets, bucket_min_distance,
  bucket_subnet, bucket_ip_limit, table_subnet, table_ip_limit, seed_min_table_time,
}
use node_util.Table.Buckets.{
  see_in_bucket, verify_in_bucket, delete_in_bucket, replace, bump_in_bucket,
}

unfoldable pub bucket_at_distance : ℕ → ℕ
bucket_at_distance d = if leb d bucket_min_distance then 0 else d - bucket_min_distance - 1

-- The package variables of the limits, which NewTable assigns: a table that is made later reads what
-- an earlier call has left.
pub record Limits : Type 0 where
  pub bucket_ip_limit : ℕ
  pub bucket_subnet : ℕ
  pub table_ip_limit : ℕ
  pub table_subnet : ℕ

unfoldable pub initial_limits : Limits
initial_limits = record {
  bucket_ip_limit = bucket_ip_limit;
  bucket_subnet = bucket_subnet;
  table_ip_limit = table_ip_limit;
  table_subnet = table_subnet;
}

abbrev pub max_uint : ℕ
max_uint = 18_446_744_073_709_551_615

unfoldable pub set_limits : Limits → Bool → Limits
set_limits l ignore_limits =
    if ignore_limits
    then record {
      bucket_ip_limit = max_uint;
      bucket_subnet = max_uint;
      table_ip_limit = max_uint;
      table_subnet = max_uint;
    }
    else l

-- What calls of NewTable, by what each is told of the limits, leave in the variables.
unfoldable pub limits_after : Limits → List Bool → Limits
unfolding set_limits
limits_after l [] = l
limits_after l (ignore_limits ∷ rest) = limits_after (set_limits l ignore_limits) rest

module _ (net : NetUtil) where
  unfoldable pub hook_node : Table net → Node → HookType → Table net
  hook_node t n kind = if t.has_hook then record t { hooked = t.hooked ++ (kind, n) ∷ [] } else t

  abbrev pub slot_of : Table net → Bucket net → Slot net
  slot_of t b = record { bucket = b; table_ips = t.table_ips }

  abbrev pub put_slot : Table net → ℕ → Slot net → Table net
  put_slot t i s = record t { buckets = set t.buckets i s.bucket; table_ips = s.table_ips }

  abbrev pub all_valid : (Enode → Bool) → List Enode → Bool
  all_valid validate [] = true
  all_valid validate (n ∷ ns) = validate n && all_valid validate ns

  -- With the package variables, before and after. `none` is the error of a bad bootstrap node;
  -- `validate` is ValidateComplete. The seeds are loaded by `load_seed_nodes`.
  unfoldable pub new_table :
      (Enode → Bool) → Limits → NodeId → List Enode → Bool → Bool → Limits × Option (Table net)
  unfolding set_limits
  new_table validate limits self_id bootnodes ignore_limits has_hook =
      let l = set_limits limits ignore_limits in
      if all_valid validate bootnodes
      then (
        l,
        some (record {
          buckets = replicate n_buckets (record {
            entries = [];
            replacements = [];
            ips = net.empty l.bucket_subnet l.bucket_ip_limit;
          });
          nursery = wrap_nodes bootnodes;
          table_ips = net.empty l.table_subnet l.table_ip_limit;
          self_id = self_id;
          init_done = false;
          has_hook = has_hook;
          hooked = [];
          stored = [];
        }),
      )
      else (l, none)

  -- The entries of all buckets, in the order of the loops over `&tab.buckets`.
  unfoldable pub entries_of : List (Bucket net) → List Node
  entries_of [] = []
  entries_of (b ∷ bs) = b.entries ++ entries_of bs

  unfoldable pub len_of : List (Bucket net) → ℕ
  len_of [] = 0
  len_of (b ∷ bs) = length b.entries + len_of bs

  unfoldable pub len : Table net → ℕ
  len t = len_of t.buckets

  unfoldable pub copy_entries : ℕ → List Node → List Node → List Node
  copy_entries now stored [] = stored
  copy_entries now stored (n ∷ ns) =
      copy_entries now
        (if is_checked n && older_than n seed_min_table_time now then stored ++ n ∷ [] else stored)
        ns

  -- `now` in nanoseconds.
  unfoldable pub copy_live_nodes : Table net → ℕ → Table net
  copy_live_nodes t now = record t { stored = copy_entries now t.stored (entries_of t.buckets) }

  unfoldable pub first_last : List (Bucket net) → List ℕ → Option (Node × ℕ)
  first_last bs [] = none
  first_last bs (bi ∷ rest) =
      let later = first_last bs rest in
      elim (get_elem? bs bi) [
        | none ↦ later
        | some b ↦ elim (get_last? b.entries) [ none ↦ later | some last ↦ some (last, bi) ]
      ]

  -- `perm` is what rand.Perm(len(tab.buckets)) returned. `none` if no bucket has an entry.
  unfoldable pub node_to_revalidate : Table net → List ℕ → Option (Node × ℕ)
  node_to_revalidate t perm = first_last t.buckets perm

  -- `replace` gave a replacement, or nil.
  unfoldable pub after_replace : Table net → Node → Option Node → Table net
  after_replace t last none = hook_node t last removed
  after_replace t last (some r) = t

  -- What doRevalidate does under the lock, after the ping. `k` is what rand.Intn returned.
  unfoldable pub finish_revalidate : Table net → Node → ℕ → Bool → ℕ → Option (Table net)
  finish_revalidate t last bi failed k = do
    b ← get_elem? t.buckets bi
    if failed
        then some (
            let (s, r) = replace net (slot_of t b) last k in after_replace (put_slot t bi s) last r)
        else some (put_slot t bi (bump_in_bucket net (slot_of t b) (bump last)).0)

  -- A ping returns a sequence number, 0 if it failed; a newer one has the record fetched.
  unfoldable pub refetch : Node → ℕ → Option Enode → Node
  refetch last remote_seq enr =
      if ltb last.seq remote_seq then elim enr [ none ↦ last | some e ↦ renew last e ] else last

  -- No other goroutine takes the lock between the choice of the node and the end.
  unfoldable pub do_revalidate :
      Table net → List ℕ → ℕ → Bool → Option Enode → ℕ → Option (Table net)
  do_revalidate t perm remote_seq failed enr k = elim (node_to_revalidate t perm) [
    | none ↦ some t
    | some (last, bi) ↦ finish_revalidate t (refetch last remote_seq enr) bi failed k
  ]

module _ (net : NetUtil) (d : Distances) where
  abbrev pub bucket_index : Table net → NodeId → ℕ
  bucket_index t id = bucket_at_distance (d.log_dist t.self_id id)

  -- The node that the hook is given has its new timestamp.
  abbrev pub added_hook : Table net → Bool → Node → ℤ → Table net
  added_hook t fits n ts = if fits then hook_node net t (set_timestamp n ts) added else t

  unfoldable pub add_seen_node : Table net → Node → ℤ → Option (Table net)
  add_seen_node t n ts = if n.id == t.self_id then some t else do
    let t' = hook_node net t n seen
    b ← get_elem? t'.buckets (bucket_index t' n.id)
    let (s, fits) = see_in_bucket net (slot_of net t' b) n ts
    some (added_hook (put_slot net t' (bucket_index t' n.id) s) fits n ts)

  unfoldable pub add_verified_node : Table net → Node → ℤ → Option (Table net)
  add_verified_node t n ts =
      if not t.init_done then some t else if n.id == t.self_id then some t else do
        b ← get_elem? t.buckets (bucket_index t n.id)
        let (s, fits) = verify_in_bucket net (slot_of net t b) n ts
        some (added_hook (put_slot net t (bucket_index t n.id) s) fits n ts)

  unfoldable pub delete : Table net → Node → Option (Table net)
  delete t n = do
    b ← get_elem? t.buckets (bucket_index t n.id)
    some (put_slot net t (bucket_index t n.id) (delete_in_bucket net (slot_of net t b) n))

  unfoldable pub first_with : NodeId → List Node → Option Node
  first_with id [] = none
  first_with id (e ∷ es) = if e.id == id then some e else first_with id es

  -- The inner option is the nil of the source.
  unfoldable pub get_node : Table net → NodeId → Option (Option Node)
  get_node t id = do b ← get_elem? t.buckets (bucket_index t id); some (first_with id b.entries)

  unfoldable pub bucket_len : Table net → NodeId → Option ℕ
  bucket_len t id = do b ← get_elem? t.buckets (bucket_index t id); some (length b.entries)

  -- The i-th seed is added at the time `clock i`.
  unfoldable pub load_nodes : (ℕ → ℤ) → ℕ → List Node → Table net → Option (Table net)
  load_nodes clock i [] t = some t
  load_nodes clock i (n ∷ ns) t = add_seen_node t n (clock i) >>= load_nodes clock (suc i) ns

  -- `seeds` is what db.QuerySeeds returned.
  unfoldable pub load_seed_nodes : Table net → List Enode → (ℕ → ℤ) → Option (Table net)
  load_seed_nodes t seeds clock = load_nodes clock 0 (wrap_nodes seeds ++ t.nursery) t

  unfoldable pub scan_entries :
      ℕ → Bool → NodesByDistance → NodesByDistance → List Node → NodesByDistance × NodesByDistance
  scan_entries nresults prefer_live nodes live [] = (nodes, live)
  scan_entries nresults prefer_live nodes live (n ∷ ns) =
      scan_entries nresults prefer_live (push d nodes n nresults)
        (if prefer_live && is_checked n then push d live n nresults else live) ns

  unfoldable pub scan_buckets :
      ℕ
      → Bool
      → NodesByDistance
      → NodesByDistance
      → List (Bucket net)
      → NodesByDistance × NodesByDistance
  scan_buckets nresults prefer_live nodes live [] = (nodes, live)
  scan_buckets nresults prefer_live nodes live (b ∷ bs) =
      let (nodes', live') = scan_entries nresults prefer_live nodes live b.entries in
      scan_buckets nresults prefer_live nodes' live' bs

  unfoldable pub find_node_by_id : Table net → NodeId → ℕ → Bool → NodesByDistance
  find_node_by_id t target nresults prefer_live =
      let none_yet : NodesByDistance = record { entries = []; target = target } in
      let (nodes, live) = scan_buckets nresults prefer_live none_yet none_yet t.buckets in
      if prefer_live && ltb 0 (length live.entries) then live else nodes
