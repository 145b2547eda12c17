-- ===== src/Scanner.antt =====
-- scanner/scanner: scanner.go, which scans the ports of an address, and nodeScanner.go, which scans
-- the nodes that are announced. Dials and the rate limiter are arguments; the set of scanned
-- addresses is kept by Redis, given by the operations that cache.go uses.
pub mod Ports
pub mod Once
pub mod Controller
mod Tests
use node_util.Base.{
  ℕ, zero, suc, ◌+◌, ◌-◌, ◌%◌, ◌^◌, ◌≡◌, Bool, true, false, ◌||◌, not, List, [], ◌∷◌, ◌++◌, map,
  Option, none, some, ltb, ◌==◌, if◌then◌else◌, remove_nth, get_elem?,
}
use node_util.Base.Int.{ℤ, pos, negsuc}

abbrev pub max_tcp_port : ℕ
max_tcp_port = 65535

-- Ports are of type uint16.
pub record ScanItem : Type 0 where
  pub port_start : ℕ
  pub port_end : ℕ

pub record ScannedItem : Type 0 where
  pub src : ScanItem
  pub open_ports : List ℕ

module _ (wait_ok is_open : ℕ → Bool) where
  -- The loop over the ports, `left` of them from `i` on: the open ones, and the port at which the
  -- limiter failed.
  unfoldable pub scan_ports : ℕ → ℕ → List ℕ × Option ℕ
  scan_ports zero i = ([], none)
  scan_ports (suc left) i =
      let rest = scan_ports left (i + 1) in
      if wait_ok i then (if is_open i then (i ∷ rest.0, rest.1) else rest) else ([], some i)

  -- The result and the port at which the scan ended.
  unfoldable pub finish : ScanItem → List ℕ × Option ℕ → ScannedItem × ℕ
  finish item (found, none) = (record { src = item; open_ports = found }, item.port_end)
  finish item (found, some i) = (record { src = item; open_ports = found }, i % 2 ^ 16)

  -- ScanItem. A uint16 never exceeds 65535: the cut of the last port is written out but does nothing.
  unfoldable pub scan_item : ScanItem → ScannedItem × ℕ
  unfolding scan_ports finish
  scan_item item =
      let last = if ltb max_tcp_port item.port_end then max_tcp_port else item.port_end in
      finish item (scan_ports (last + 1 - item.port_start) item.port_start)

  -- runScanner hands a full scan to the callback, and else closes its channel: none.
  unfoldable pub hand_over : ScannedItem × ℕ → Option ScannedItem
  hand_over (result, index) = if index == result.src.port_end then some result else none

  unfoldable pub run_scan : ScanItem → Option ScannedItem
  unfolding scan_item hand_over
  run_scan item = hand_over (scan_item item)

-- `int32(v)` of each port.
unfoldable pub convert_array : List ℕ → List ℤ
convert_array =
    map (λ v.
      if ltb (v % 2 ^ 32) (2 ^ 31) then pos (v % 2 ^ 32) else negsuc (2 ^ 32 - 1 - v % 2 ^ 32))

-- `SetNX` "sets the key if it does not exist" and says whether it did; `Del` removes a key. Keys stand
-- for the text of an address. Nothing expires here.
pub record Cache : Type 1 where
  pub Store : Type 0
  pub holds : Store → ℕ → Bool
  pub set_nx : Store → ℕ → Store × Bool
  pub del : Store → ℕ → Store

pub record CacheLaws (cache : Cache) : Type 0 where
  pub set_nx_answer : (s : cache.Store) (k : ℕ) → (cache.set_nx s k).1 ≡ not (cache.holds s k)
  pub holds-set_nx :
      (s : cache.Store) (k x : ℕ)
      → cache.holds (cache.set_nx s k).0 x ≡ ((k == x) || cache.holds s x)
  pub holds-del :
      (s : cache.Store) (k x : ℕ)
      → cache.holds (cache.del s k) x ≡ (if k == x then false else cache.holds s x)

-- An announced node: none for a record that does not parse; whether its address is a global unicast
-- one; the key of the address; whether the controller takes the scan.
pub record Announced : Type 0 where
  pub key : Option ℕ
  pub is_global_unicast : Bool
  pub taken : Bool

-- `scans` lists the scans that the controller has taken, the latest first. Their callbacks are `open`
-- until they run; `recorded` and `crashed` list those that ran with an item and with nil.
pub record NodeScanner (cache : Cache) : Type 0 where
  pub store : cache.Store
  pub scans : List ℕ
  pub open_scans : List ℕ
  pub recorded : List ℕ
  pub crashed : List ℕ

unfoldable pub new_node_scanner : {cache : Cache} → cache.Store → NodeScanner cache
new_node_scanner store = record {
  store = store;
  scans = [];
  open_scans = [];
  recorded = [];
  crashed = [];
}

-- A node that the broker announces, or the callback of an open scan, with whether it crashed.
pub data ScanEvent : Type 0 where
  announced : Announced → ScanEvent
  called_back : ℕ → Bool → ScanEvent

module _ (cache : Cache) where
  unfoldable pub scan_key : NodeScanner cache → ℕ → Bool → NodeScanner cache
  scan_key s k taken =
      let (store, fresh) = cache.set_nx s.store k in
      if fresh
      then (if taken
          then record s { store = store; scans = k ∷ s.scans; open_scans = k ∷ s.open_scans }
          else record s { store = cache.del store k })
      else record s { store = store }

  -- One turn of the loop of Start.
  unfoldable pub on_node : NodeScanner cache → Announced → NodeScanner cache
  unfolding scan_key
  on_node s a = elim a.key [
    | none ↦ s
    | some k ↦ if a.is_global_unicast then scan_key s k a.taken else s
  ]

  -- The callback of the i-th open scan: a crash deletes the entry of the cache.
  unfoldable pub callback : NodeScanner cache → ℕ → Bool → Option ℕ → NodeScanner cache
  callback s i crashes none = s
  callback s i crashes (some k) =
      let left = record s { open_scans = remove_nth s.open_scans i } in
      if crashes
      then record left { store = cache.del s.store k; crashed = k ∷ s.crashed }
      else record left { recorded = k ∷ s.recorded }

  unfoldable pub scan_turn : NodeScanner cache → ScanEvent → NodeScanner cache
  unfolding on_node callback
  scan_turn s (announced a) = on_node s a
  scan_turn s (called_back i crashes) = callback s i crashes (get_elem? s.open_scans i)

  unfoldable pub run_nodes : NodeScanner cache → List ScanEvent → NodeScanner cache
  unfolding scan_turn
  run_nodes s [] = s
  run_nodes s (e ∷ es) = run_nodes (scan_turn s e) es
