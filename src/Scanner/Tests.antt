-- ===== src/Scanner/Tests.antt =====
-- Examples for the scanner: ports 22 and 30303 are open.
use node_util.Base.{
  ◌+◌, one_when, ℕ, ◌≤◌, ◌≡◌, refl, Bool, true, false, ◌||◌, not, List, [], ◌∷◌, some, ◌==◌, count,
  if◌then◌else◌,
}
use node_util.Scanner.{
  ScanItem, ScannedItem, scan_ports, finish, scan_item, hand_over, run_scan, Cache, CacheLaws,
  NodeScanner, ScanEvent, announced, called_back, new_node_scanner, scan_turn, on_node, scan_key,
  callback, run_nodes,
}
use node_util.Scanner.Once.{run_nodes-once}

abbrev item : ScanItem
item = record { port_start = 20; port_end = 24 }

abbrev is_open : ℕ → Bool
is_open p = (p == 22) || (p == 30303)

abbrev always : ℕ → Bool
always p = true

abbrev result : ScannedItem
result = record { src = item; open_ports = 22 ∷ [] }

scanned : run_scan always is_open item ≡ some result
unfolding run_scan hand_over scan_item finish scan_ports
scanned = refl

abbrev key_set : Cache
key_set = record {
  Store = ℕ → Bool;
  holds = λ s k. s k;
  set_nx = λ s k. (λ x. (k == x) || s x, not (s k));
  del = λ s k x. if k == x then false else s x;
}

key_set_laws : CacheLaws key_set
key_set_laws = record {
  set_nx_answer = λ s k. refl;
  holds-set_nx = λ s k x. refl;
  holds-del = λ s k x. refl;
}

-- The first scan crashes, and the second one is recorded.
abbrev news : List ScanEvent
news =
    announced (record { key = some 7; is_global_unicast = true; taken = true })
    ∷ announced (record { key = some 7; is_global_unicast = true; taken = true })
    ∷ called_back 0 true
    ∷ announced (record { key = some 7; is_global_unicast = true; taken = true })
    ∷ called_back 0 false
    ∷ announced (record { key = some 7; is_global_unicast = true; taken = true })
    ∷ []

abbrev last_state : NodeScanner key_set
last_state = run_nodes key_set (new_node_scanner (λ k. false)) news

scanned_twice : last_state.scans ≡ 7 ∷ 7 ∷ []
unfolding run_nodes scan_turn on_node scan_key callback new_node_scanner
scanned_twice = refl

run_nodes-once_example :
    (count 7 last_state.scans ≤ 1 + count 7 last_state.crashed)
    × (count 7 last_state.open_scans + count 7 last_state.recorded
        ≤ one_when (key_set.holds last_state.store 7))
run_nodes-once_example = run_nodes-once key_set key_set_laws (λ k. false) news 7
