-- ===== src/Scanner/Once.antt =====
-- scanner/scanner/nodeScanner.go does not scan an address twice.
use node_util.Base.{
  refl, zero, suc, true, false, Option, none, some, remove_nth, get_elem?, ◌==◌, ◌+◌, ℕ, ◌≤◌, ◌≡◌,
  Bool, inl, inr, Bool-cases, Option-cases, List, [], ◌∷◌, arith, count, one_when,
}
use node_util.Scanner.{
  Cache, CacheLaws, Announced, NodeScanner, new_node_scanner, ScanEvent, announced, called_back,
  callback, scan_key, on_node, scan_turn, run_nodes,
}

count-remove_nth :
    (t : ℕ) (xs : List ℕ) (i x : ℕ)
    → get_elem? xs i ≡ some x
    → one_when (t == x) + count t (remove_nth xs i) ≡ count t xs
count-remove_nth t [] i x e = cc
count-remove_nth t (y ∷ ys) zero x e = ground arith
count-remove_nth t (y ∷ ys) (suc i) x e = omega (arith, count-remove_nth t ys i x e)

module _ (cache : Cache) (laws : CacheLaws cache) where
  -- A scan that is open or recorded is of an address in the cache, and one at most for each; every
  -- other scan has crashed.
  pub record IsSingle (s : NodeScanner cache) : Type 0 where
    pub held :
        (k : ℕ) → count k s.open_scans + count k s.recorded ≤ one_when (cache.holds s.store k)
    pub counted :
        (k : ℕ) → count k s.scans ≡ (count k s.open_scans + count k s.recorded) + count k s.crashed

  scan_key-IsSingle :
      (s : NodeScanner cache) (k : ℕ) (taken : Bool)
      → IsSingle s
      → IsSingle (scan_key cache s k taken)
  unfolding scan_key
  scan_key-IsSingle s k taken ok = record {
    held = λ x. ground (
      arith,
      ok.held x,
      ok.held k,
      laws.set_nx_answer s.store k,
      laws.holds-set_nx s.store k x,
      laws.holds-del (cache.set_nx s.store k).0 k x,
    );
    counted = λ x. ground (arith, ok.counted x);
  }

  on_node-IsSingle :
      (s : NodeScanner cache) (a : Announced) → IsSingle s → IsSingle (on_node cache s a)
  unfolding on_node
  on_node-IsSingle s a ok = elim (Option-cases a.key) [
    | inl bad ↦ rw bad ok
    | inr (k, good) ↦ elim (Bool-cases a.is_global_unicast) [
      | inl global ↦ rw (good, global) (scan_key-IsSingle s k a.taken ok)
      | inr other ↦ rw (good, other) ok
    ]
  ]

  callback-IsSingle :
      (s : NodeScanner cache) (i : ℕ) (crashes : Bool) (o : Option ℕ)
      → get_elem? s.open_scans i ≡ o
      → IsSingle s
      → IsSingle (callback cache s i crashes o)
  unfolding callback
  callback-IsSingle s i crashes none there ok = ok
  callback-IsSingle s i true (some k) there ok = record {
    held = λ x.
        ground
          (arith, ok.held x, count-remove_nth x s.open_scans i k there, laws.holds-del s.store k x);
    counted = λ x. ground (arith, ok.counted x, count-remove_nth x s.open_scans i k there);
  }
  callback-IsSingle s i false (some k) there ok = record {
    held = λ x. ground (arith, ok.held x, count-remove_nth x s.open_scans i k there);
    counted = λ x. ground (arith, ok.counted x, count-remove_nth x s.open_scans i k there);
  }

  run-IsSingle :
      (s : NodeScanner cache) (es : List ScanEvent) → IsSingle s → IsSingle (run_nodes cache s es)
  unfolding run_nodes scan_turn
  run-IsSingle s [] ok = ok
  run-IsSingle s (announced a ∷ es) ok =
      run-IsSingle (on_node cache s a) es (on_node-IsSingle s a ok)
  run-IsSingle s (called_back i crashes ∷ es) ok =
      run-IsSingle (callback cache s i crashes (get_elem? s.open_scans i)) es
        (callback-IsSingle s i crashes _ refl ok)

  -- As long as nothing in the cache expires, no address is given to the controller more than once
  -- beyond the scans of it that have crashed, whichever nodes are announced, whichever scans are
  -- refused and whenever the callbacks run; and of an address with a scan that is open or recorded
  -- there is one such scan only, and it is in the cache.
  pub run_nodes-once :
      (store : cache.Store) (es : List ScanEvent) (k : ℕ)
      → let s = run_nodes cache (new_node_scanner store) es in
        (count k s.scans ≤ 1 + count k s.crashed)
        × (count k s.open_scans + count k s.recorded ≤ one_when (cache.holds s.store k))
  unfolding new_node_scanner
  run_nodes-once store es k =
      let start : IsSingle (new_node_scanner store) = record {
        held = λ x. omega arith;
        counted = λ x. omega arith;
      } in
      let ok = run-IsSingle (new_node_scanner store) es start in
      (ground (arith, ok.held k, ok.counted k), ok.held k)
