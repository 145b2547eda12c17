-- ===== src/Crawler/Reported.antt =====
-- What a peer of crawler/crawler/peer.go reports of the nodes it knows, and the turns of the buffer of
-- peers.
use node_util.Base.{
  ◌+◌, ◌≤◌, ◌≡◌, refl, sym, ◌∙◌, ap, inl, inr, Bool-cases, Option-cases, List, [], ◌∷◌, ◌++◌, map,
  none, arith, count, count-append, length,
}
use mathlib.Core.List.{append_assoc, append-nil}
use node_util.Node.{NodeId, Enode}
use node_util.Crawler.Peers.{
  Peer, load, mark_peer_node, new_entries, mark_nodes, enqueue, dequeue, tick, ticks,
}

-- What happens to a peer: it names nodes, or its new entries are read.
pub data PeerEvent : Type 0 where
  names : List Enode → PeerEvent
  reads : PeerEvent

abbrev pub keys : List (NodeId × Enode) → List NodeId
keys = map (λ k. k.0)

pub load-none : (t : NodeId) (ps : List (NodeId × Enode)) → load t ps ≡ none → count t (keys ps) ≡ 0
load-none t [] e = refl
load-none t ((k, n) ∷ ps) e = ground (arith, load-none t ps)

module _ {Info : Type 0} where
  -- Returns the peer with all entries that were read.
  unfoldable pub follow : Peer Info → List PeerEvent → Peer Info × List NodeId
  unfolding mark_nodes new_entries
  follow p [] = (p, [])
  follow p (names ns ∷ es) = follow (mark_nodes p ns).0 es
  follow p (reads ∷ es) =
      let rest = follow (new_entries p).0 es in (rest.0, (new_entries p).1 ++ rest.1)

  -- The map has each key once, and what is fresh was put in it.
  pub record IsTidy (p : Peer Info) : Type 0 where
    pub once : (t : NodeId) → count t (keys p.peers) ≤ 1
    pub kept : (t : NodeId) → count t p.fresh ≤ count t (keys p.peers)

  mark_peer_node-IsTidy : (p : Peer Info) (n : Enode) → IsTidy p → IsTidy (mark_peer_node p n).0
  unfolding mark_peer_node
  mark_peer_node-IsTidy p n ok = elim (Option-cases (load n.id p.peers)) [
    | inl new ↦
        rw (new, mark_peer_node)
          (record {
            once = λ t. ground (arith, ok.once t, load-none n.id p.peers new);
            kept = λ t. ground (arith, ok.kept t, count-append t p.fresh (n.id ∷ []));
          })
    | inr (old, known) ↦ rw (known, mark_peer_node) ok
  ]

  -- Marking nodes makes fresh exactly what it adds to the map.
  mark_peer_node_adds :
      (p : Peer Info) (n : Enode) (t : NodeId)
      → count t (mark_peer_node p n).0.fresh + count t (keys p.peers)
        ≡ count t p.fresh + count t (keys (mark_peer_node p n).0.peers)
  unfolding mark_peer_node
  mark_peer_node_adds p n t = elim (Option-cases (load n.id p.peers)) [
    | inl new ↦ rw (new, mark_peer_node) (ground (arith, count-append t p.fresh (n.id ∷ [])))
    | inr (old, known) ↦ rw (known, mark_peer_node) refl
  ]

  mark_nodes_adds :
      (ns : List Enode) (p : Peer Info) (t : NodeId)
      → count t (mark_nodes p ns).0.fresh + count t (keys p.peers)
        ≡ count t p.fresh + count t (keys (mark_nodes p ns).0.peers)
  unfolding mark_nodes
  mark_nodes_adds [] p t = refl
  mark_nodes_adds (n ∷ ns) p t =
      let rest = mark_nodes_adds ns (mark_peer_node p n).0 t in
      let first = mark_peer_node_adds p n t in ground (arith, rest, first)

  follow_adds :
      (es : List PeerEvent) (p : Peer Info) (t : NodeId)
      → count t (follow p es).1 + (count t (follow p es).0.fresh + count t (keys p.peers))
        ≡ count t p.fresh + count t (keys (follow p es).0.peers)
  unfolding follow new_entries
  follow_adds [] p t = omega arith
  follow_adds (names ns ∷ es) p t =
      omega (arith, follow_adds es (mark_nodes p ns).0 t, mark_nodes_adds ns p t)
  follow_adds (reads ∷ es) p t = omega (
    arith,
    follow_adds es (new_entries p).0 t,
    count-append t p.fresh (follow (new_entries p).0 es).1,
  )

  mark_nodes-IsTidy : (ns : List Enode) (p : Peer Info) → IsTidy p → IsTidy (mark_nodes p ns).0
  unfolding mark_nodes
  mark_nodes-IsTidy [] p ok = ok
  mark_nodes-IsTidy (n ∷ ns) p ok =
      let rest = mark_nodes-IsTidy ns (mark_peer_node p n).0 (mark_peer_node-IsTidy p n ok) in
      elim (Bool-cases (mark_peer_node p n).1) [ inl new ↦ rw new rest | inr old ↦ rw old rest ]

  follow-IsTidy : (es : List PeerEvent) (p : Peer Info) → IsTidy p → IsTidy (follow p es).0
  unfolding follow new_entries
  follow-IsTidy [] p ok = ok
  follow-IsTidy (names ns ∷ es) p ok =
      follow-IsTidy es (mark_nodes p ns).0 (mark_nodes-IsTidy ns p ok)
  follow-IsTidy (reads ∷ es) p ok =
      follow-IsTidy es (new_entries p).0 (record { once = ok.once; kept = λ t. omega arith })

  -- However often a new peer names its nodes and its new entries are read, each of its nodes is read
  -- once at most, and exactly once when it is not fresh any more; other nodes are never read.
  pub follow-once :
      (es : List PeerEvent) (p : Peer Info) (t : NodeId)
      → p.peers ≡ []
      → p.fresh ≡ []
      → (count t (keys (follow p es).0.peers) ≤ 1)
        × (count t (follow p es).1 + count t (follow p es).0.fresh
            ≡ count t (keys (follow p es).0.peers))
  follow-once es p t none_known none_fresh =
      let start : IsTidy p = record {
        once = λ u. rw none_known (omega arith);
        kept = λ u. rw none_fresh (omega arith);
      } in
      (
        (follow-IsTidy es p start).once t,
        ground (arith, follow_adds es p t, none_known, none_fresh),
      )

module _ {ℓ} {T : Type ℓ} (work : T → T) where
  ticks_through : (xs ys : List T) → ticks work (length xs) (xs ++ ys) ≡ ys ++ map work xs
  unfolding ticks tick enqueue dequeue
  ticks_through [] ys = sym (append-nil ys)
  ticks_through (x ∷ xs) ys =
      ap (ticks work (length xs)) (append_assoc xs ys (work x ∷ []))
      ∙ (ticks_through xs (ys ++ work x ∷ []) ∙ append_assoc ys (work x ∷ []) (map work xs))

  -- As many ticks as there are peers look at every peer once, and leave the peers in their order.
  pub ticks-length : (xs : List T) → ticks work (length xs) xs ≡ map work xs
  ticks-length xs = ap (ticks work (length xs)) (sym (append-nil xs)) ∙ ticks_through xs []
