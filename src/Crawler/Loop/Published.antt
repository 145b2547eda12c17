-- ===== src/Crawler/Loop/Published.antt =====
-- What Crawl of crawler/crawler/crawler.go publishes of the nodes that the peers name.
use node_util.Base.{
  length, remove_nth, total-remove_nth, ℕ, ◌+◌, ◌≤◌, ◌≡◌, refl, ◌∙◌, sym, subst, Bool, inl, inr,
  Option-cases, List, [], ◌∷◌, ◌++◌, Option, none, some, arith, one_when, get_elem?, set, count,
  count-append, All, total-append, if◌then◌else◌, ◌==◌,
}
use node_util.Node.{NodeId, Enode}
use node_util.Crawler.Peers.{Peer, load, new_entries, can_refresh, enqueue}
use node_util.Crawler.Reported.{keys, load-none}
use node_util.Crawler.Loop.Changes.{
  ids, published, in_marking, known, fresh_in, IsNamed, IsSound, count-get_peer_nodes,
  change-IsReported, here-IsReported, keep-IsReported,
}
use node_util.Crawler.Loop.Named.{get-new, informed_keeps, is_named, turn-IsTurn}
use node_util.Crawler.Loop.{
  Crawler, new_crawler, on_found, stats_of, publish, tick_peer, with_peer, on_dequeued, on_ticker,
  store_node, enter, Event, found, ticked, marks, enters, asked, queried, turn, run,
}

module _ {Info : Type 0} where
  with_peer-IsSound :
      (s : Crawler Info) (i : ℕ) (f : Peer Info → Crawler Info)
      → ((p : Peer Info) → get_elem? s.store i ≡ some p → IsSound (f p))
      → IsSound s
      → IsSound (with_peer s i f)
  with_peer-IsSound s i f good ok = with_read (get_elem? s.store i) refl
    where
      with_read :
          (read : Option (Peer Info))
          → get_elem? s.store i ≡ read
          → IsSound (elim read [ none ↦ s | some p ↦ f p ])
      with_read none _ = ok
      with_read (some p) here = good p here

  store_node-IsSound :
      (s : Crawler Info) (i : ℕ) (n : Enode) (p : Peer Info)
      → get_elem? s.store i ≡ some p
      → IsSound s
      → IsSound (store_node s i n p)
  unfolding store_node in_marking
  store_node-IsSound s i n p here ok = elim (Option-cases (load n.id p.peers)) [
    | inl new ↦
        let (now, good) = here-IsReported s.store s.stats s.marking i p here ok in
        let absent = load-none n.id p.peers new in
        rw (new, store_node)
          (change-IsReported s.store s.stats s.stats s.marking ((i, n.id) ∷ s.marking) i p _ here
            (λ j u. ground arith) (λ u. ground (arith, (now u).0, absent)) (refl, good) ok)
    | inr (old, there) ↦ rw (there, store_node) ok
  ]

  enter-IsSound :
      (s : Crawler Info) (k : ℕ) (m : Option (ℕ × NodeId))
      → get_elem? s.marking k ≡ m
      → IsSound s
      → IsSound (enter s k m)
  unfolding enter in_marking
  enter-IsSound s k none e ok = ok
  enter-IsSound s k (some (i, id)) e ok =
      with_peer-IsSound s i _
        (λ p here.
          let (now, good) = here-IsReported s.store s.stats s.marking i p here ok in
          change-IsReported s.store s.stats s.stats s.marking (remove_nth s.marking k) i p _ here
            (λ j u. ground (
              arith,
              total-remove_nth (λ m. if m.0 == j then one_when (u == m.1) else 0) s.marking k
                  (i, id) e,
              count-append u p.fresh (id ∷ []),
            ))
            (λ u. (now u).0) good ok)
        ok

  count-stats_of :
      (i : ℕ) (p : Peer Info) (es : List NodeId) (j : ℕ) (t : NodeId)
      → All IsNamed p.peers
      → ((u : NodeId) → count u es ≤ count u (keys p.peers))
      → published j t (stats_of i p es ∷ []) ≡ (if i == j then count t es else 0)
  unfolding published stats_of
  count-stats_of i p es j t good kept = ground (arith, count-get_peer_nodes p es t good kept)

  -- What a tick publishes is what was fresh.
  publish-IsSound :
      (s : Crawler Info) (i : ℕ) (p q : Peer Info) (entries : List NodeId)
      → get_elem? s.store i ≡ some p
      → p.fresh ≡ entries
      → q.fresh ≡ []
      → q.peers ≡ p.peers
      → IsSound s
      → IsSound (publish (record s { store = set s.store i q }) i q entries)
  unfolding publish published
  publish-IsSound s i p q [] here none_fresh emptied same ok =
      keep-IsReported s.store s.stats s.marking i p q here (emptied ∙ sym none_fresh) same ok
  publish-IsSound s i p q (e ∷ es) here read emptied same ok =
      let (now, good) = here-IsReported s.store s.stats s.marking i p here ok in
      let single : (u : NodeId) → count u (keys q.peers) ≤ 1 = λ u. rw same ((now u).0) in
      let named : All IsNamed q.peers = rw same good in
      let kept : (u : NodeId) → count u (e ∷ es) ≤ count u (keys q.peers) =
        λ u. rw same (subst (λ l. count u l ≤ count u (keys p.peers)) read ((now u).1)) in
      let stats = s.stats ++ stats_of i q (e ∷ es) ∷ [] in
      change-IsReported s.store s.stats stats s.marking s.marking i p q here
        (λ j u.
          let grown =
            total-append (λ st. if st.peer == j then count u (ids st.new_nodes) else 0) s.stats
              (stats_of i q (e ∷ es) ∷ []) in
          let listed = count-stats_of i q (e ∷ es) j u named kept in
          rw (read, emptied, same) (ground (arith, grown, listed)))
        single named ok

  tick_peer-IsSound :
      (s : Crawler Info) (now i : ℕ) (p : Peer Info)
      → get_elem? s.store i ≡ some p
      → IsSound s
      → IsSound (tick_peer s now i p)
  unfolding tick_peer new_entries
  tick_peer-IsSound s now i p here ok =
      let (counter, due) = can_refresh p.find_counter now in
      let pushed = if due then s.pushed ++ i ∷ [] else s.pushed in
      publish-IsSound (record s { pushed = pushed }) i p
        (record p { find_counter = counter; fresh = [] }) p.fresh here refl refl refl ok

  on_dequeued-IsSound :
      (s : Crawler Info) (now : ℕ) (o : Option (ℕ × List ℕ))
      → IsSound s
      → IsSound (on_dequeued s now o)
  unfolding on_dequeued
  on_dequeued-IsSound s now none ok = ok
  on_dequeued-IsSound s now (some (i, rest)) ok =
      let turned = record s { buffer = enqueue rest i; visited = s.visited ++ i ∷ [] } in
      with_peer-IsSound turned i _ (λ p here. tick_peer-IsSound turned now i p here ok) ok

  on_found-IsSound : (s : Crawler Info) (n : Enode) → IsSound s → IsSound (on_found s n)
  unfolding on_found known fresh_in
  on_found-IsSound s n ok = record {
    balance = λ i t. elim (get-new s.store i) [
      | inl old ↦ rw old (ok.balance i t)
      | inr (nothing, new) ↦ rw new (rw nothing at (ok.balance i t))
    ];
    once = λ i t. elim (get-new s.store i) [
      | inl old ↦ rw old (ok.once i t)
      | inr (nothing, new) ↦ rw new (omega arith)
    ];
    named = λ i. elim (get-new s.store i) [
      | inl old ↦ rw old (ok.named i)
      | inr (nothing, new) ↦ rw new tt
    ];
  }

  module _ (same : Info → Info → Bool) where
    turn-IsSound : (s : Crawler Info) (e : Event Info) → IsSound s → IsSound (turn same s e)
    unfolding turn on_ticker
    turn-IsSound s (found n) ok = on_found-IsSound s n ok
    turn-IsSound s (ticked now) ok = on_dequeued-IsSound s now _ ok
    turn-IsSound s (marks i n) ok =
        with_peer-IsSound s i _ (λ p here. store_node-IsSound s i n p here ok) ok
    turn-IsSound s (enters k) ok = enter-IsSound s k _ refl ok
    turn-IsSound s (asked i failed now) ok =
        with_peer-IsSound s i _
          (λ p here. keep-IsReported s.store s.stats s.marking i p _ here refl refl ok) ok
    turn-IsSound s (queried i info now) ok =
        with_peer-IsSound s i _
          (λ p here.
            let kept = informed_keeps same p now info in
            keep-IsReported s.store s.stats s.marking i p _ here kept.0 kept.1 ok)
          ok

    run-IsSound : (s : Crawler Info) (es : List (Event Info)) → IsSound s → IsSound (run same s es)
    unfolding run
    run-IsSound s [] ok = ok
    run-IsSound s (e ∷ es) ok = run-IsSound (turn same s e) es (turn-IsSound s e ok)

    one_if : (b : Bool) → (if b then 1 else 0) ≡ one_when b
    one_if b = ground arith

    run-known :
        (s : Crawler Info) (es : List (Event Info)) (i : ℕ) (t : NodeId)
        → IsSound s
        → known (run same s es).store i t
          ≡ (if is_named (length s.store) es i t then 1 else known s.store i t)
    unfolding run is_named
    run-known s [] i t ok = refl
    run-known s (e ∷ es) i t ok =
        let first = turn-IsTurn same s e ok.once in
        let rest = run-known (turn same s e) es i t (turn-IsSound s e ok) in
        ground (arith, rw first.grown at rest, first.maps i t)

    -- However new nodes, ticks and the answers of several workers on the same peer mix, each node that
    -- an answer has named to a peer is published in that peer's statistics, fresh, or about to be
    -- fresh, exactly once in all, and is in the peer's map once; other nodes are none of these.
    pub run-published :
        (es : List (Event Info)) (i : ℕ) (t : NodeId)
        → (published i t (run same new_crawler es).stats
              + (fresh_in (run same new_crawler es).store i t
                  + in_marking i t (run same new_crawler es).marking)
            ≡ one_when (is_named 0 es i t))
          × (known (run same new_crawler es).store i t ≡ one_when (is_named 0 es i t))
    unfolding new_crawler published known fresh_in in_marking
    run-published es i t =
        let start : IsSound new_crawler = record {
          balance = λ j u. refl;
          once = λ j u. omega arith;
          named = λ j. tt;
        } in
        let sound = run-IsSound new_crawler es start in
        let there : known (run same new_crawler es).store i t ≡ one_when (is_named 0 es i t) =
          run-known new_crawler es i t start ∙ one_if (is_named 0 es i t) in
        (sound.balance i t ∙ there, there)
