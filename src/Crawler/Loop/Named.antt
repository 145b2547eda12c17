-- ===== src/Crawler/Loop/Named.antt =====
-- Which nodes the events of crawler/crawler/crawler.go and crawlerProc.go name to the peers, and that
-- only these come into the maps of the peers.
use node_util.Base.{
  ap, length-set, length-append, ℕ, zero, suc, ◌+◌, ◌<◌, ◌≤◌, ◌≡◌, refl, ◌∙◌, sym, Bool, true,
  false, ◌&&◌, ◌||◌, ◌%◌, ◌^◌, get_elem?-eq, inl, inr, ◌⊎◌, Bool-cases, Option-cases, List, [], ◌∷◌,
  ◌++◌, Option, none, some, arith, get_elem?, set, count, length, ltb, ◌==◌, if◌then◌else◌,
  if_cases,
}
use node_util.Node.{NodeId, Enode}
use node_util.Crawler.Peers.{Peer, load, new_entries, can_refresh, update_info, enqueue}
use node_util.Crawler.Reported.{keys, load-none}
use node_util.Crawler.Loop.Changes.{known, read-set, read-here}
use node_util.Crawler.Loop.{
  Crawler, new_peer, on_found, publish, tick_peer, with_peer, on_dequeued, on_ticker, store_node,
  enter, informed, Event, found, ticked, marks, enters, asked, queried, turn,
}

-- Whether an event names the node t to the peer at i, where the peers below `peers` are there.
unfoldable pub names : {Info : Type 0} → ℕ → ℕ → NodeId → Event Info → Bool
names peers i t (marks j n) = ltb i peers && ((j == i) && (n.id == t))
names peers i t e = false

-- Each found node is a new peer.
unfoldable pub peers_after : {Info : Type 0} → ℕ → Event Info → ℕ
peers_after peers (found n) = peers + 1
peers_after peers e = peers

unfoldable pub is_named : {Info : Type 0} → ℕ → List (Event Info) → ℕ → NodeId → Bool
unfolding names peers_after
is_named peers [] i t = false
is_named peers (e ∷ es) i t = names peers i t e || is_named (peers_after peers e) es i t

load-some :
    (t : NodeId) (ps : List (NodeId × Enode)) (n : Enode)
    → load t ps ≡ some n
    → 0 < count t (keys ps)
load-some t [] n e = cc
load-some t ((k, m) ∷ ps) n e = ground (arith, load-some t ps n)

module _ {Info : Type 0} where
  get-none : (xs : List (Peer Info)) (i : ℕ) → get_elem? xs i ≡ none → ltb i (length xs) ≡ false
  get-none [] i e = ground arith
  get-none (x ∷ xs) zero e = cc
  get-none (x ∷ xs) (suc i) e = ground (arith, get-none xs i e)

  get-some :
      (xs : List (Peer Info)) (i : ℕ) (p : Peer Info)
      → get_elem? xs i ≡ some p
      → ltb i (length xs) ≡ true
  get-some [] i p e = cc
  get-some (x ∷ xs) zero p e = ground arith
  get-some (x ∷ xs) (suc i) p e = ground (arith, get-some xs i p e)

  pub get-new :
      (store : List (Peer Info)) (i : ℕ)
      → (get_elem? (store ++ new_peer ∷ []) i ≡ get_elem? store i)
        ⊎ ((get_elem? store i ≡ none) × (get_elem? (store ++ new_peer ∷ []) i ≡ some new_peer))
  get-new [] zero = inr (refl, refl)
  get-new [] (suc i) = inl refl
  get-new (x ∷ xs) zero = inl refl
  get-new (x ∷ xs) (suc i) = get-new xs i

  -- The same peers, with the same nodes in their maps.
  record HasSameMaps (s u : Crawler Info) : Type 0 where
    length : length u.store ≡ length s.store
    maps : (i : ℕ) (t : NodeId) → known u.store i t ≡ known s.store i t

  set-HasSameMaps :
      (s u : Crawler Info) (i : ℕ) (p q : Peer Info)
      → get_elem? s.store i ≡ some p
      → q.peers ≡ p.peers
      → u.store ≡ set s.store i q
      → HasSameMaps s u
  unfolding known
  set-HasSameMaps s u i p q here same e = record {
    length = rw e (length-set s.store i q);
    maps = λ j t.
        let written = read-set s.store i j p q t here in
        rw e (
          written.1 ∙ elim (Bool-cases (i == j)) [
            | inl there ↦
                rw there
                  (ap (λ l. count t (keys l)) same ∙ sym (read-here s.store i j p t here there).1)
            | inr other ↦ rw other refl
          ]);
  }

  with_peer-HasSameMaps :
      (s : Crawler Info) (i : ℕ) (f : Peer Info → Crawler Info)
      → ((p : Peer Info) → get_elem? s.store i ≡ some p → HasSameMaps s (f p))
      → HasSameMaps s (with_peer s i f)
  with_peer-HasSameMaps s i f good = with_read (get_elem? s.store i) refl
    where
      with_read :
          (read : Option (Peer Info))
          → get_elem? s.store i ≡ read
          → HasSameMaps s (elim read [ none ↦ s | some p ↦ f p ])
      with_read none _ = record { length = refl; maps = λ j t. refl }
      with_read (some p) here = good p here

  publish-store :
      (s : Crawler Info) (i : ℕ) (p : Peer Info) (entries : List NodeId)
      → (publish s i p entries).store ≡ s.store
  unfolding publish
  publish-store s i p [] = refl
  publish-store s i p (e ∷ es) = refl

  on_dequeued-HasSameMaps :
      (s : Crawler Info) (now : ℕ) (o : Option (ℕ × List ℕ)) → HasSameMaps s (on_dequeued s now o)
  unfolding on_dequeued tick_peer new_entries
  on_dequeued-HasSameMaps s now none = record { length = refl; maps = λ j t. refl }
  on_dequeued-HasSameMaps s now (some (i, rest)) =
      let turned = record s { buffer = enqueue rest i; visited = s.visited ++ i ∷ [] } in
      let same = with_peer-HasSameMaps turned i (tick_peer turned now i) λ p here.
        let q = record p { find_counter = (can_refresh p.find_counter now).0; fresh = [] } in
        set-HasSameMaps turned _ i p q here refl (publish-store _ i q p.fresh) in
      record { length = same.length; maps = same.maps }

  enter-HasSameMaps :
      (s : Crawler Info) (k : ℕ) (m : Option (ℕ × NodeId)) → HasSameMaps s (enter s k m)
  unfolding enter
  enter-HasSameMaps s k none = record { length = refl; maps = λ j t. refl }
  enter-HasSameMaps s k (some (i, id)) =
      with_peer-HasSameMaps s i _ (λ p here. set-HasSameMaps s _ i p _ here refl refl)

  pub informed_keeps :
      (same : Info → Info → Bool) (p : Peer Info) (now : ℕ) (info : Option Info)
      → ((informed same p now info).fresh ≡ p.fresh) × ((informed same p now info).peers ≡ p.peers)
  unfolding informed update_info
  informed_keeps same p now none = (refl, refl)
  informed_keeps same p now (some info) = elim (Option-cases p.info) [
    | inl new ↦ rw (new, informed, update_info) (refl, refl)
    | inr (old, known_info) ↦
        rw (known_info, informed, update_info)
          (if_cases (λ (r : Peer Info × Bool). (r.0.fresh ≡ p.fresh) × (r.0.peers ≡ p.peers))
            (same old info) _ _ (λ _. (refl, refl)) λ _. (refl, refl))
  ]

  -- What one event does to the maps: a node that is named is there once, all else stays.
  pub record IsTurn (s u : Crawler Info) (e : Event Info) : Type 0 where
    pub grown : length u.store ≡ peers_after (length s.store) e
    pub maps :
        (i : ℕ) (t : NodeId)
        → known u.store i t ≡ (if names (length s.store) i t e then 1 else known s.store i t)

  store_node-IsTurn :
      (s : Crawler Info) (i : ℕ) (n : Enode) (p : Peer Info)
      → get_elem? s.store i ≡ some p
      → ((j : ℕ) (t : NodeId) → known s.store j t ≤ 1)
      → IsTurn s (store_node s i n p) (marks i n)
  unfolding store_node names peers_after
  store_node-IsTurn s i n p here once = elim (Option-cases (load n.id p.peers)) [
    | inl new ↦
        rw (new, store_node)
          (record {
            grown = length-set s.store i _;
            maps = λ j t.
                let written =
                  read-set s.store i j p
                    (record p {
                      peers = (n.id, n) ∷ p.peers;
                      peers_amount = (p.peers_amount + 1) % 2 ^ 32;
                    })
                    t here in
                let absent = load-none n.id p.peers new in
                elim (Bool-cases (i == j)) [
                  | inl same ↦
                      let before = (read-here s.store i j p t here same).1 in
                      let there = get-some s.store j p (get_elem?-eq s.store i j p here same) in
                      ground (arith, same, written.1, before, absent, there)
                  | inr other ↦ ground (arith, other, written.1)
                ];
          })
    | inr (old, there) ↦
        rw (there, store_node)
          (record {
            grown = refl;
            maps = λ j t. elim (Bool-cases (i == j)) [
              | inl same ↦
                  let before = (read-here s.store i j p t here same).1 in
                  ground (arith, same, before, load-some n.id p.peers old there, once j t)
              | inr other ↦ ground (arith, other)
            ];
          })
  ]

  same-IsTurn :
      {s u : Crawler Info} (e : Event Info)
      → ((i : ℕ) (t : NodeId) → names (length s.store) i t e ≡ false)
      → peers_after (length s.store) e ≡ length s.store
      → HasSameMaps s u
      → IsTurn s u e
  same-IsTurn e none_named same_length same = record {
    grown = same.length ∙ sym same_length;
    maps = λ i t. rw (none_named i t) (same.maps i t);
  }

  on_found-IsTurn : (s : Crawler Info) (n : Enode) → IsTurn s (on_found s n) (found n)
  unfolding on_found names peers_after known
  on_found-IsTurn s n = record {
    grown = length-append s.store (new_peer ∷ []);
    maps = λ i t. elim (get-new s.store i) [
      | inl old ↦ rw old refl
      | inr (nothing, new) ↦ rw (new, nothing) refl
    ];
  }

  on_marks-IsTurn :
      (s : Crawler Info) (i : ℕ) (n : Enode)
      → ((j : ℕ) (t : NodeId) → known s.store j t ≤ 1)
      → IsTurn s (with_peer s i (store_node s i n)) (marks i n)
  unfolding names peers_after
  on_marks-IsTurn s i n once = with_read (get_elem? s.store i) refl
    where
      with_read :
          (read : Option (Peer Info))
          → get_elem? s.store i ≡ read
          → IsTurn s (elim read [ none ↦ s | some p ↦ store_node s i n p ]) (marks i n)
      with_read none missing = record {
        grown = refl;
        maps = λ j t. elim (Bool-cases (i == j)) [
          | inl same ↦ ground (arith, same, get-none s.store i missing)
          | inr other ↦ ground (arith, other)
        ];
      }
      with_read (some p) here = store_node-IsTurn s i n p here once

  pub turn-IsTurn :
      (same : Info → Info → Bool) (s : Crawler Info) (e : Event Info)
      → ((j : ℕ) (t : NodeId) → known s.store j t ≤ 1)
      → IsTurn s (turn same s e) e
  unfolding turn on_ticker names peers_after
  turn-IsTurn same s (found n) once = on_found-IsTurn s n
  turn-IsTurn same s (ticked now) once =
      same-IsTurn _ (λ i t. refl) refl (on_dequeued-HasSameMaps s now _)
  turn-IsTurn same s (marks i n) once = on_marks-IsTurn s i n once
  turn-IsTurn same s (enters k) once = same-IsTurn _ (λ i t. refl) refl (enter-HasSameMaps s k _)
  turn-IsTurn same s (asked i failed now) once =
      same-IsTurn _ (λ i t. refl) refl
        (with_peer-HasSameMaps s i _ (λ p here. set-HasSameMaps s _ i p _ here refl refl))
  turn-IsTurn same s (queried i info now) once =
      same-IsTurn _ (λ i t. refl) refl
        (with_peer-HasSameMaps s i _
          (λ p here. set-HasSameMaps s _ i p _ here (informed_keeps same p now info).1 refl))
