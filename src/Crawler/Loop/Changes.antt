-- ===== src/Crawler/Loop/Changes.antt =====
-- What changes with one peer of crawler/crawler/peer.go in the count of the nodes that the peers name
-- and that are published.
use node_util.Base.{
  get_elem?-set, get_elem?-eq, ℕ, ◌+◌, ◌≤◌, ◌≡◌, refl, subst, true, inl, inr, Bool-cases,
  Option-cases, List, [], ◌∷◌, map, Option, none, some, arith, one_when, get_elem?, set, count, All,
  total, if◌then◌else◌, if_cases, ◌==◌,
}
use node_util.Node.{NodeId, Enode}
use node_util.Crawler.Peers.{Peer, load, get_peer_nodes}
use node_util.Crawler.Reported.{keys, load-none}
use node_util.Crawler.Loop.{NodeStats, Crawler}

abbrev pub ids : List Enode → List NodeId
ids = map (λ n. n.id)

-- How often a node is in what was published of a peer.
unfoldable pub published : ℕ → NodeId → List NodeStats → ℕ
published i t = total (λ st. if st.peer == i then count t (ids st.new_nodes) else 0)

-- How often it waits to be appended to what is fresh.
unfoldable pub in_marking : ℕ → NodeId → List (ℕ × NodeId) → ℕ
in_marking i t = total (λ m. if m.0 == i then one_when (t == m.1) else 0)

abbrev pub IsNamed : NodeId × Enode → Type 0
IsNamed k = k.1.id ≡ k.0

-- The nodes of entries that are in the map are those entries.
load-id :
    (ps : List (NodeId × Enode)) (t : NodeId) (n : Enode)
    → All IsNamed ps
    → load t ps ≡ some n
    → n.id ≡ t
load-id [] t n h e = cc
load-id ((k, m) ∷ ps) t n h e = ground (arith, h.0, load-id ps t n h.1)

module _ {Info : Type 0} where
  -- The map and the fresh entries of a peer, empty for one that is not there yet.
  abbrev pub peers_of : Option (Peer Info) → List (NodeId × Enode)
  peers_of none = []
  peers_of (some p) = p.peers

  abbrev pub fresh_of : Option (Peer Info) → List NodeId
  fresh_of none = []
  fresh_of (some p) = p.fresh

  unfoldable pub known : List (Peer Info) → ℕ → NodeId → ℕ
  known store i t = count t (keys (peers_of (get_elem? store i)))

  unfoldable pub fresh_in : List (Peer Info) → ℕ → NodeId → ℕ
  fresh_in store i t = count t (fresh_of (get_elem? store i))

  pub record IsReported (store : List (Peer Info)) (stats : List NodeStats)
      (marking : List (ℕ × NodeId)) : Type 0 where
    pub balance :
        (i : ℕ) (t : NodeId)
        → published i t stats + (fresh_in store i t + in_marking i t marking) ≡ known store i t
    pub once : (i : ℕ) (t : NodeId) → known store i t ≤ 1
    pub named : (i : ℕ) → All IsNamed (peers_of (get_elem? store i))

  abbrev pub IsSound : Crawler Info → Type 0
  IsSound s = IsReported s.store s.stats s.marking

  pub count-get_peer_nodes :
      (p : Peer Info) (es : List NodeId) (t : NodeId)
      → All IsNamed p.peers
      → ((u : NodeId) → count u es ≤ count u (keys p.peers))
      → count t (ids (get_peer_nodes p es)) ≡ count t es
  unfolding get_peer_nodes
  count-get_peer_nodes p [] t h kept = refl
  count-get_peer_nodes p (e ∷ es) t h kept =
      let rest = count-get_peer_nodes p es t h (λ u. ground (arith, kept u)) in
      elim (Option-cases (load e p.peers)) [
        | inl missing ↦ absurd (ground (arith, kept e, load-none e p.peers missing))
        | inr (n, there) ↦
            rw (there, get_peer_nodes) (ground (arith, rest, load-id p.peers e n h there))
      ]

  -- What is read at a place after a write, of fresh entries and of the map.
  pub read-set :
      (store : List (Peer Info)) (i j : ℕ) (p q : Peer Info) (u : NodeId)
      → get_elem? store i ≡ some p
      → (fresh_in (set store i q) j u ≡ (if i == j then count u q.fresh else fresh_in store j u))
        × (known (set store i q) j u ≡ (if i == j then count u (keys q.peers) else known store j u))
  unfolding known fresh_in
  read-set store i j p q u here = rw (get_elem?-set store i j p q here) (ground arith, ground arith)

  pub read-here :
      (store : List (Peer Info)) (i j : ℕ) (p : Peer Info) (u : NodeId)
      → get_elem? store i ≡ some p
      → (i == j) ≡ true
      → (fresh_in store j u ≡ count u p.fresh) × (known store j u ≡ count u (keys p.peers))
  unfolding known fresh_in
  read-here store i j p u here same = rw (get_elem?-eq store i j p here same) (refl, refl)

  IsNamed-set :
      (store : List (Peer Info)) (i j : ℕ) (p q : Peer Info)
      → get_elem? store i ≡ some p
      → All IsNamed q.peers
      → All IsNamed (peers_of (get_elem? store j))
      → All IsNamed (peers_of (get_elem? (set store i q) j))
  IsNamed-set store i j p q here good ok =
      rw (get_elem?-set store i j p q here)
        (if_cases (λ o. All IsNamed (peers_of o)) (i == j) _ _ (λ _. good) λ _. ok)

  -- A change of one peer, with what is published and marked meanwhile.
  pub change-IsReported :
      (store : List (Peer Info)) (stats new_stats : List NodeStats)
      (marking new_marking : List (ℕ × NodeId)) (i : ℕ) (p q : Peer Info)
      → get_elem? store i ≡ some p
      → ((j : ℕ) (u : NodeId)
          → published j u new_stats
              + (in_marking j u new_marking
                  + (if i == j then count u q.fresh + count u (keys p.peers) else 0))
            ≡ published j u stats
              + (in_marking j u marking
                  + (if i == j then count u p.fresh + count u (keys q.peers) else 0)))
      → ((u : NodeId) → count u (keys q.peers) ≤ 1)
      → All IsNamed q.peers
      → IsReported store stats marking
      → IsReported (set store i q) new_stats new_marking
  change-IsReported store stats new_stats marking new_marking i p q here even single good ok =
      record {
        balance = λ j u.
            let (fresh_now, known_now) = read-set store i j p q u here in
            elim (Bool-cases (i == j)) [
              | inl same ↦
                  let (fresh_then, known_then) = read-here store i j p u here same in
                  ground (
                    arith,
                    same,
                    fresh_now,
                    known_now,
                    fresh_then,
                    known_then,
                    even j u,
                    ok.balance j u,
                  )
              | inr other ↦ ground (arith, other, fresh_now, known_now, even j u, ok.balance j u)
            ];
        once = λ j u. ground (arith, (read-set store i j p q u here).1, single u, ok.once j u);
        named = λ j. IsNamed-set store i j p q here good (ok.named j);
      }

  -- What is known of the peer at a place.
  pub here-IsReported :
      (store : List (Peer Info)) (stats : List NodeStats) (marking : List (ℕ × NodeId)) (i : ℕ)
      (p : Peer Info)
      → get_elem? store i ≡ some p
      → IsReported store stats marking
      → ((u : NodeId) → (count u (keys p.peers) ≤ 1) × (count u p.fresh ≤ count u (keys p.peers)))
        × All IsNamed p.peers
  unfolding known fresh_in
  here-IsReported store stats marking i p here ok = (
    λ u.
        let known_here : known store i u ≡ count u (keys p.peers) = rw here refl in
        let fresh_here : fresh_in store i u ≡ count u p.fresh = rw here refl in
        (
          omega (arith, ok.once i u, known_here),
          omega (arith, ok.balance i u, known_here, fresh_here),
        ),
    subst (λ o. All IsNamed (peers_of o)) here (ok.named i),
  )

  -- A change that touches neither the map nor what is fresh.
  pub keep-IsReported :
      (store : List (Peer Info)) (stats : List NodeStats) (marking : List (ℕ × NodeId)) (i : ℕ)
      (p q : Peer Info)
      → get_elem? store i ≡ some p
      → q.fresh ≡ p.fresh
      → q.peers ≡ p.peers
      → IsReported store stats marking
      → IsReported (set store i q) stats marking
  keep-IsReported store stats marking i p q here fresh same ok =
      let (now, good) = here-IsReported store stats marking i p here ok in
      change-IsReported store stats stats marking marking i p q here (λ j u. rw (fresh, same) refl)
        (λ u. rw same ((now u).0)) (rw same good) ok
