-- ===== src/Table/Buckets.antt =====
-- The methods of crawler/net/discovery/table/table.go that work on one bucket, under the lock.
use node_util.Base.{
  ℕ, suc, Bool, true, false, List, [], ◌∷◌, ◌++◌, Option, none, some, ◌==◌, leb, if◌then◌else◌,
  length, get_elem?, get_last?, set_last, take, drop,
}
use node_util.Base.Int.{ℤ}
use node_util.Node.{Node, Ip, set_timestamp}
use node_util.NetUtil.{NetUtil}
use node_util.Table.State.{Slot, bucket_size, max_replacements}
use node_util.Table.Lists.{contains, push_node, delete_node, find_entry}

module _ (net : NetUtil) where
  abbrev pub with_ips : Slot net → net.DistinctNetSet → net.DistinctNetSet → Slot net
  with_ips s table_ips ips = record s {
    bucket = record s.bucket { ips = ips };
    table_ips = table_ips;
  }

  abbrev pub with_entries : Slot net → List Node → List Node → Slot net
  with_entries s entries replacements = record s {
    bucket = record s.bucket { entries = entries; replacements = replacements };
  }

  unfoldable pub add_ip : Slot net → Ip → Slot net × Bool
  add_ip s [] = (s, false)
  add_ip s (x ∷ xs) =
      let ip : Ip = x ∷ xs in
      if net.is_lan ip
      then (s, true)
      else let (table_ips, fits) = net.add s.table_ips ip in
        let (ips, fits_bucket) = net.add s.ips ip in
        if fits
        then (if fits_bucket
            then (with_ips s table_ips ips, true)
            else (with_ips s (net.remove table_ips ip) ips, false))
        else (with_ips s table_ips s.ips, false)

  unfoldable pub remove_ip : Slot net → Ip → Slot net
  remove_ip s ip =
      if net.is_lan ip then s else with_ips s (net.remove s.table_ips ip) (net.remove s.ips ip)

  -- `tab.removeIP` of the node that fell off the replacements, if one did
  unfoldable pub drop_removed : Slot net → Option Node → Slot net
  drop_removed s none = s
  drop_removed s (some n) = remove_ip s n.ip

  unfoldable pub add_replacement : Slot net → Node → Slot net
  add_replacement s n =
      if contains s.replacements n.id
      then s
      else let (s', fits) = add_ip s n.ip in
        let (replacements, removed) = push_node s'.replacements n max_replacements in
        if fits then drop_removed (with_entries s' s'.entries replacements) removed else s'

  unfoldable pub delete_in_bucket : Slot net → Node → Slot net
  delete_in_bucket s n = remove_ip (with_entries s (delete_node s.entries n) s.replacements) n.ip

  -- The rest of `replace` once `r` is picked.
  unfoldable pub replace_by : Slot net → Node → Node → Slot net
  replace_by s last r =
      remove_ip (with_entries s (set_last s.entries r) (delete_node s.replacements r)) last.ip

  -- `last` is still the last entry, `rs` are the replacements, and `k` is what
  -- rand.Intn(len(b.replacements)) returned, which is in range.
  unfoldable pub replace_last : Slot net → Node → List Node → ℕ → Slot net × Option Node
  replace_last s last [] k = (delete_in_bucket s last, none)
  replace_last s last (r ∷ rs) k = elim (get_elem? (r ∷ rs) k) [
    | none ↦ (s, none)
    | some r ↦ (replace_by s last r, some r)
  ]

  unfoldable pub replace : Slot net → Node → ℕ → Slot net × Option Node
  replace s last k = elim (get_last? s.entries) [
    | none ↦ (s, none)
    | some e ↦ if e.id == last.id then replace_last s last s.replacements k else (s, none)
  ]

  unfoldable pub move_to_front : Slot net → ℕ → Node → Slot net
  move_to_front s i n =
      with_entries s (n ∷ (take i s.entries ++ drop (suc i) s.entries)) s.replacements

  unfoldable pub bump_in_bucket : Slot net → Node → Slot net × Bool
  bump_in_bucket s n = elim (find_entry s.entries n.id) [
    | none ↦ (s, false)
    | some (i, e) ↦
        if net.ip_equal n.ip e.ip
        then (move_to_front s i n, true)
        else let (s', fits) = add_ip (remove_ip s e.ip) n.ip in
          if fits then (move_to_front s' i n, true) else ((add_ip s' e.ip).0, false)
  ]

  -- The part of AddSeenNode under the lock, at the Unix time `ts`; whether the node was added.
  unfoldable pub see_in_bucket : Slot net → Node → ℤ → Slot net × Bool
  see_in_bucket s n ts =
      if contains s.entries n.id
      then (s, false)
      else if leb bucket_size (length s.entries)
      then (add_replacement s n, false)
      else let (s', fits) = add_ip s n.ip in
        if fits
        then (
          with_entries s' (s'.entries ++ set_timestamp n ts ∷ []) (delete_node s'.replacements n),
          true,
        )
        else (s', false)

  -- The part of addVerifiedNode under the lock, once the node was not bumped.
  unfoldable pub verify_new : Slot net → Node → ℤ → Slot net × Bool
  verify_new s n ts =
      if leb bucket_size (length s.entries)
      then (add_replacement s n, false)
      else let (s', fits) = add_ip s n.ip in
        if fits
        then (
          with_entries s' (push_node s'.entries (set_timestamp n ts) bucket_size).0
              (delete_node s'.replacements n),
          true,
        )
        else (s', false)

  -- The part of addVerifiedNode under the lock.
  unfoldable pub verify_in_bucket : Slot net → Node → ℤ → Slot net × Bool
  verify_in_bucket s n ts =
      let (s', bumped) = bump_in_bucket s n in if bumped then (s', false) else verify_new s' n ts
