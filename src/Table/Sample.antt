-- ===== src/Table/Sample.antt =====
-- A table with two nodes, for the examples.
use node_util.Base.{◌≡◌, refl, true, false, [], Option, none, some}
use node_util.Base.Int.{pos}
use node_util.Node.{Node, set_timestamp, bump, is_checked}
use node_util.Samples.{sample_net, sample_net_laws, sample_dist, sample_dist_laws, node_at}
use node_util.Distance.{push}
use node_util.Table.State.{Table}
use node_util.Table.Lists.{contains, push_node, delete_node, find_entry}
use node_util.Table.Buckets.{
  add_ip, remove_ip, drop_removed, add_replacement, delete_in_bucket, replace_by, replace_last,
  replace, move_to_front, bump_in_bucket, see_in_bucket, verify_new, verify_in_bucket,
}
use node_util.Table.Ops.{
  bucket_at_distance, initial_limits, set_limits, new_table, hook_node, entries_of, len_of, len,
  add_seen_node, add_verified_node, delete, finish_revalidate, find_node_by_id, scan_entries,
  scan_buckets,
}
use node_util.Table.Steps.{here, next, seen_step, initialised_step, IsTable}
use node_util.Table.Life.{Reach-new_table}

program : Unit {0}
unfolding contains len_of len push_node delete_node find_entry add_ip remove_ip drop_removed
    add_replacement delete_in_bucket replace_by replace_last replace move_to_front bump_in_bucket
    see_in_bucket verify_new verify_in_bucket bucket_at_distance initial_limits set_limits new_table
    hook_node entries_of add_seen_node add_verified_node delete finish_revalidate find_node_by_id
    scan_entries scan_buckets push set_timestamp bump is_checked
program = tt

-- A table with ID 1000 and no limits lifted.
abbrev pub fresh : Option (Table sample_net)
fresh = (new_table sample_net (λ e. true) initial_limits 1000 [] false false).1

abbrev pub or_empty : Option (Table sample_net) → Table sample_net
or_empty none = record {
  buckets = [];
  nursery = [];
  table_ips = sample_net.empty 0 0;
  self_id = 0;
  init_done = false;
  has_hook = false;
  hooked = [];
  stored = [];
}
or_empty (some t) = t

abbrev pub empty_table : Table sample_net
empty_table = or_empty fresh

abbrev pub after_seen : Table sample_net → Node → Table sample_net
after_seen t n = or_empty (add_seen_node sample_net sample_dist t n (pos 7))

abbrev pub one : Table sample_net
one = after_seen empty_table (node_at 900 1 0)

abbrev pub two : Table sample_net
two = after_seen one (node_at 910 2 1)

-- The table once loadSeedNodes has run.
abbrev pub ready : Table sample_net
ready = record two { init_done = true }

pub ready-IsTable : IsTable sample_net sample_dist ready
unfolding program
ready-IsTable =
    Reach-new_table sample_net sample_net_laws sample_dist sample_dist_laws (λ e. true)
      initial_limits 1000 [] false false {t = empty_table} refl
      (next
        (next (next here (seen_step (node_at 900 1 0) (pos 7) refl))
          (seen_step (node_at 910 2 1) (pos 7) refl))
        (initialised_step refl))

pub ready-len : len sample_net ready ≡ 2
unfolding program
ready-len = refl
