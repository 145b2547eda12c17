-- ===== src/Table/Tests.antt =====
-- Examples for the table and its lists of nodes.
use node_util.Base.{
  total, List, ◌+◌, length, min, count, one_when, ltb, ◌≤◌, ◌≡◌, ◌≢◌, refl, true, false, [], ◌∷◌,
  none, arith, map,
}
use node_util.Base.Int.{pos}
use node_util.Node.{unwrap_nodes, set_timestamp, bump, renew, is_checked, renew_keeps}
use node_util.Samples.{sample_net, sample_net_laws, sample_dist, sample_dist_laws, node_at}
use node_util.Distance.{NodesByDistance, push}
use node_util.Distance.Ideal.{insert, IsClosest}
use node_util.Distance.Closest.{push-insert}
use node_util.Table.State.{Bucket}
use node_util.Table.Limits.{tally}
use node_util.Table.Limits.Filled.{filled, unfilled, seen_fill, Filled-limit}
use node_util.Table.Lists.{contains, push_node, delete_node, find_entry}
use node_util.Table.Buckets.{
  add_ip, remove_ip, drop_removed, add_replacement, delete_in_bucket, replace_by, replace_last,
  replace, move_to_front, bump_in_bucket, see_in_bucket, verify_new, verify_in_bucket,
}
use node_util.Table.Ops.{
  bucket_at_distance, initial_limits, set_limits, limits_after, new_table, hook_node, entries_of,
  len, add_seen_node, add_verified_node, delete, finish_revalidate, find_node_by_id, scan_entries,
  scan_buckets,
}
use node_util.Table.Sample.{empty_table, after_seen, two, ready, ready-IsTable}
use node_util.Table.Random.{read_random_nodes}
use node_util.Table.Random.Unique.{ids, read_random_nodes_unique}
use node_util.Table.Loop.{
  start_loop, Event, refresh_call, refresh_finished, revalidate_tick, close_call, copy_tick, turn,
  run,
}
use node_util.Table.Loop.Waiting.{run-closes}
use node_util.Table.Loop.Jobs.{IsSingle, run-IsSingle}
use node_util.Table.Steps.{here, next, seen_step, IsTable}
use node_util.Table.Life.{Reach-new_table, new_table-IsTable, calls_return}
use node_util.Table.Find.{candidates, find_node_by_id-IsClosest}

program : Unit {0}
unfolding contains push_node delete_node find_entry add_ip remove_ip drop_removed add_replacement
    delete_in_bucket replace_by replace_last replace move_to_front bump_in_bucket see_in_bucket
    verify_new verify_in_bucket bucket_at_distance initial_limits set_limits limits_after new_table
    hook_node entries_of add_seen_node add_verified_node delete finish_revalidate find_node_by_id
    scan_entries scan_buckets push set_timestamp bump is_checked
program = tt

-- The third address of one /24 exceeds the limit of a bucket.
third_refused :
    (map (λ n. n.id) (entries_of sample_net two.buckets) ≡ 900 ∷ 910 ∷ [])
    × (map (λ n. n.id) (entries_of sample_net (after_seen two (node_at 920 3 1)).buckets)
        ≡ 900 ∷ 910 ∷ [])
unfolding program
third_refused = (refl, refl)

renew_keeps_example :
    renew (node_at 900 1 5) (node_at 901 2 0).enode
    ≡ record (node_at 900 1 5) { enode = (node_at 901 2 0).enode }
renew_keeps_example =
    renew_keeps (node_at 900 1 5) (node_at 901 2 0).enode (omega arith) (omega arith)

Reach-new_table_example : IsTable sample_net sample_dist two
unfolding program
Reach-new_table_example =
    Reach-new_table sample_net sample_net_laws sample_dist sample_dist_laws (λ e. true)
      initial_limits 1000 [] false false {t = empty_table} refl
      (next (next here (seen_step (node_at 900 1 0) (pos 7) refl))
        (seen_step (node_at 910 2 1) (pos 7) refl))

empty-IsTable : IsTable sample_net sample_dist empty_table
unfolding program
empty-IsTable =
    new_table-IsTable sample_net sample_dist (λ e. true) initial_limits 1000 [] false false refl

calls_return_example :
    add_seen_node sample_net sample_dist empty_table (node_at 900 1 0) (pos 7) ≢ none
unfolding program
calls_return_example =
    (calls_return sample_net sample_net_laws sample_dist sample_dist_laws empty_table
      (node_at 900 1 0) (pos 7) true 0 empty-IsTable (λ e. omega arith)).0

find_node_by_id-IsClosest_example :
    IsClosest sample_dist 905 1
      (candidates true (entries_of sample_net two.buckets))
      (find_node_by_id sample_net sample_dist two 905 1 true).entries
find_node_by_id-IsClosest_example =
    find_node_by_id-IsClosest sample_net sample_dist sample_dist_laws 905 1 two true

abbrev pair : NodesByDistance
pair = record { entries = node_at 900 1 0 ∷ node_at 910 2 1 ∷ []; target = 899 }

push-insert_example :
    push sample_dist pair (node_at 905 3 0) 2
    ≡ record pair { entries = node_at 900 1 0 ∷ node_at 905 3 0 ∷ [] }
unfolding insert
push-insert_example =
    push-insert sample_dist sample_dist_laws pair (node_at 905 3 0) 2 (omega arith) (omega arith)

read_random_nodes_unique_example :
    (length (read_random_nodes sample_net ready 5 (1 ∷ 1 ∷ [])) ≡ min 5 (len sample_net ready))
    × ((count 900 (ids (read_random_nodes sample_net ready 5 (1 ∷ 1 ∷ [])))
          ≤ count 900 (ids (unwrap_nodes (entries_of sample_net ready.buckets))))
        × (count 900 (ids (read_random_nodes sample_net ready 5 (1 ∷ 1 ∷ []))) ≤ 1))
read_random_nodes_unique_example =
    read_random_nodes_unique sample_net sample_dist ready 5 (1 ∷ 1 ∷ []) 900 ready-IsTable refl

-- A caller asks for a refresh while one is under way, and one after close.
abbrev turns : List Event
turns = refresh_call ∷ revalidate_tick ∷ copy_tick ∷ close_call ∷ refresh_call ∷ []

run-closes_example :
    ((turn (run start_loop turns) refresh_finished).waiting ≡ [])
    × (count 1 (turn (run start_loop turns) refresh_finished).closed_channels
        ≡ one_when (ltb 1 (run start_loop turns).made))
run-closes_example = run-closes turns 1

run-IsSingle_example : IsSingle (run start_loop turns)
run-IsSingle_example = run-IsSingle turns

abbrev first_of : List (Bucket sample_net) → Bucket sample_net
first_of [] = record { entries = []; replacements = []; ips = sample_net.empty 24 2 }
first_of (b ∷ bs) = b

Filled-limit_example :
    (tally sample_net 24 (80 ∷ 1 ∷ 2 ∷ 9 ∷ []) (first_of two.buckets).entries
        + tally sample_net 24 (80 ∷ 1 ∷ 2 ∷ 9 ∷ []) (first_of two.buckets).replacements
      ≤ 2)
    × (total
          (λ c.
            tally sample_net 24 (80 ∷ 1 ∷ 2 ∷ 9 ∷ []) c.entries
            + tally sample_net 24 (80 ∷ 1 ∷ 2 ∷ 9 ∷ []) c.replacements)
          two.buckets
        ≤ 10)
unfolding program
Filled-limit_example =
    Filled-limit sample_net sample_net_laws sample_dist (false ∷ []) (λ e. true) 1000 [] false false
      {t = empty_table} {u = two} 0 (first_of two.buckets) (80 ∷ 1 ∷ 2 ∷ 9 ∷ []) (refl, (refl, tt))
      refl
      (filled (filled unfilled (seen_fill (node_at 900 1 0) (pos 7) refl))
        (seen_fill (node_at 910 2 1) (pos 7) refl))
      refl
