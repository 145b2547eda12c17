-- ===== src/Scanner/Ports.antt =====
-- Which ports scanner/scanner/scanner.go reports.
use node_util.Base.{
  ◌⊎◌, subst, Option, ℕ, zero, suc, ◌+◌, ◌-◌, ◌≤◌, ◌<◌, ◌≡◌, refl, Bool, true, false, ◌&&◌, inl,
  inr, List, none, some, arith, ltb, leb, count, one_when, if◌then◌else◌,
}
use node_util.Scanner.{
  ScanItem, ScannedItem, scan_ports, scan_item, run_scan, max_tcp_port, hand_over, finish,
}

module _ (wait_ok is_open : ℕ → Bool) where
  -- Where a scan of `left` ports from `i` on ends.
  abbrev pub stop_of : ℕ → ℕ → ℕ
  stop_of left i = elim (scan_ports wait_ok is_open left i).1 [ none ↦ i + left | some j ↦ j ]

  count-scan_ports :
      (left i p : ℕ)
      → (i ≤ stop_of left i)
        × ((stop_of left i ≤ i + left)
            × (count p (scan_ports wait_ok is_open left i).0
                ≡ one_when ((leb i p && ltb p (stop_of left i)) && is_open p)))
  unfolding scan_ports
  count-scan_ports zero i p = ground arith
  count-scan_ports (suc left) i p =
      let rest = count-scan_ports left (i + 1) p in ground (arith, rest)

  stop_lt :
      (left i j : ℕ)
      → (scan_ports wait_ok is_open left i).1 ≡ some j
      → (j < i + left) × (wait_ok j ≡ false)
  unfolding scan_ports
  stop_lt zero i j e = cc
  stop_lt (suc left) i j e = ground (arith, stop_lt left (i + 1) j)

  hand_over-finish :
      (item : ScanItem) (result : ScannedItem) (r : List ℕ × Option ℕ)
      → ((j : ℕ) → r.1 ≡ some j → j ≤ max_tcp_port)
      → hand_over wait_ok is_open (finish wait_ok is_open item r) ≡ some result
      → (result.open_ports ≡ r.0) × ((r.1 ≡ none) ⊎ (r.1 ≡ some item.port_end))
  unfolding hand_over finish
  hand_over-finish item result (found, none) small e = ground arith
  hand_over-finish item result (found, some j) small e = ground (arith, small j refl)

  -- When a scan of a port range delivers a result, this lists each open port of the range once and
  -- no other port; only the last port of the range is left out if the limiter failed there.
  pub run_scan-open :
      (item : ScanItem) (result : ScannedItem) (p : ℕ)
      → item.port_start ≤ item.port_end
      → item.port_end ≤ max_tcp_port
      → run_scan wait_ok is_open item ≡ some result
      → (p ≡ item.port_end → wait_ok p ≡ true)
      → count p result.open_ports
        ≡ one_when ((leb item.port_start p && leb p item.port_end) && is_open p)
  unfolding run_scan scan_item
  run_scan-open item result p order bound e last =
      let start = item.port_start in
      let cut : (if ltb max_tcp_port item.port_end then max_tcp_port else item.port_end)
          ≡ item.port_end =
        ground arith in
      let left : ℕ = item.port_end + 1 - start in
      let full : hand_over wait_ok is_open
            (finish wait_ok is_open item (scan_ports wait_ok is_open left start))
          ≡ some result =
        subst
          (λ (l : ℕ).
            hand_over wait_ok is_open
              (finish wait_ok is_open item (scan_ports wait_ok is_open (l + 1 - start) start))
            ≡ some result)
          cut e in
      let found = count-scan_ports left start p in
      let got =
        hand_over-finish item result (scan_ports wait_ok is_open left start)
          (λ j s. omega (arith, (stop_lt left start j s).0)) full in
      rw got.0 (elim got.1 [
        | inl all ↦ ground (arith, found)
        | inr halted ↦ ground (arith, found, last, stop_lt left start item.port_end halted)
      ])
