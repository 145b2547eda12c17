-- ===== src/Crawler/Peers.antt =====
-- Peers in crawler/crawler: peer.go, buffer.go and what crawlerProc.go and crawler.go do with them.
-- Peers.Peers is the map of a peer, from IDs to nodes.
use node_util.Base.{
  ℕ, zero, suc, ◌+◌, ◌-◌, ◌/◌, ◌%◌, ◌^◌, Bool, true, false, not, List, [], ◌∷◌, ◌++◌, Option, none,
  some, ltb, ◌==◌, if◌then◌else◌,
}
use node_util.Node.{NodeId, Enode}

-- Times are Unix milliseconds, durations too.
pub record QueryCounter : Type 0 where
  pub duration : ℕ
  pub last_attempt : ℕ
  pub successes : ℕ
  pub failures : ℕ

-- CanRefresh with nothing else at work on the counter: `now / 1000` is `time.Now().Unix()`.
unfoldable pub can_refresh : QueryCounter → ℕ → QueryCounter × Bool
can_refresh q now =
    if ltb (now - q.last_attempt) q.duration
    then (q, false)
    else (record q { last_attempt = now / 1000 }, true)

unfoldable pub bump : QueryCounter → Bool → ℕ → QueryCounter
bump q true now = record q { failures = (q.failures + 1) % 2 ^ 32; last_attempt = now }
bump q false now = record q { successes = (q.successes + 1) % 2 ^ 32; last_attempt = now }

pub record Peer (Info : Type 0) : Type 0 where
  pub info : Option Info
  pub peers_amount : ℕ
  pub peers : List (NodeId × Enode)
  pub info_counter : QueryCounter
  pub find_counter : QueryCounter
  pub fresh : List NodeId
  pub hooked : List Info

abbrev pub load : NodeId → List (NodeId × Enode) → Option Enode
load id [] = none
load id ((k, n) ∷ rest) = if k == id then some n else load id rest

-- `same` is DeepEqual of the infos; the hook gets the info that was stored.
unfoldable pub update_info :
    {Info : Type 0} → (Info → Info → Bool) → Peer Info → Info → Peer Info × Bool
update_info same p info =
    let stored = record p { info = some info; hooked = info ∷ p.hooked } in
    elim p.info [
      | none ↦ (stored, true)
      | some old ↦ if same old info then (p, false) else (stored, true)
    ]

unfoldable pub mark_peer_node : {Info : Type 0} → Peer Info → Enode → Peer Info × Bool
mark_peer_node p n = elim (load n.id p.peers) [
  | some old ↦ (p, false)
  | none ↦ (
    record p {
      peers = (n.id, n) ∷ p.peers;
      peers_amount = (p.peers_amount + 1) % 2 ^ 32;
      fresh = p.fresh ++ n.id ∷ [];
    },
    true,
  )
]

unfoldable pub get_peer_node : {Info : Type 0} → Peer Info → NodeId → Option Enode
get_peer_node p id = load id p.peers

unfoldable pub get_peer_nodes : {Info : Type 0} → Peer Info → List NodeId → List Enode
get_peer_nodes p [] = []
get_peer_nodes p (id ∷ ids) =
    let rest = get_peer_nodes p ids in elim (load id p.peers) [ none ↦ rest | some n ↦ n ∷ rest ]

unfoldable pub new_entries : {Info : Type 0} → Peer Info → Peer Info × List NodeId
new_entries p = (record p { fresh = [] }, p.fresh)

-- The loop of crawlerProc over the nodes that a peer knows: the new ones are pinged.
unfoldable pub mark_nodes : {Info : Type 0} → Peer Info → List Enode → Peer Info × List NodeId
unfolding mark_peer_node
mark_nodes p [] = (p, [])
mark_nodes p (n ∷ ns) =
    let (q, new) = mark_peer_node p n in
    let rest = mark_nodes q ns in if new then (rest.0, n.id ∷ rest.1) else rest

-- OnData of crawlerProc. `info` is the answer of the peer's querier and `nodes` that of
-- AskForRandomNodes, none for an error.
unfoldable pub on_data :
    {Info : Type 0}
    → (Info → Info → Bool)
    → Peer Info
    → ℕ
    → Option Info
    → Option (List Enode)
    → Peer Info × (List NodeId × Bool)
unfolding can_refresh bump update_info mark_nodes
on_data same p now info nodes =
    let (counter, due) = can_refresh p.info_counter now in
    let tried = record p { info_counter = counter } in
    let informed : Peer _ = elim info [
      | none ↦ record tried { info_counter = bump tried.info_counter true now }
      | some i ↦
          let (q, updated) = update_info same tried i in
          record q { info_counter = bump q.info_counter (not updated) now }
    ] in
    let asked = if due then informed else tried in
    elim nodes [
      | none ↦ (
        record asked { find_counter = bump (bump asked.find_counter true now) true now },
        ([], false),
      )
      | some ns ↦
          let (q, pinged) =
            mark_nodes (record asked { find_counter = bump asked.find_counter false now }) ns in
          (q, (pinged, true))
    ]

-- buffer[T]
unfoldable pub enqueue {ℓ} : {T : Type ℓ} → List T → T → List T
enqueue inner data_ = inner ++ data_ ∷ []

unfoldable pub dequeue {ℓ} : {T : Type ℓ} → List T → Option (T × List T)
dequeue [] = none
dequeue (elem ∷ rest) = some (elem, rest)

-- What a tick of the crawler's loop does to its buffer of peers, with the work on a peer given.
unfoldable pub tick {ℓ} : {T : Type ℓ} → (T → T) → List T → List T
unfolding enqueue dequeue
tick work peers = elim (dequeue peers) [ none ↦ peers | some (p, rest) ↦ enqueue rest (work p) ]

unfoldable pub ticks {ℓ} : {T : Type ℓ} → (T → T) → ℕ → List T → List T
unfolding tick
ticks work zero peers = peers
ticks work (suc n) peers = ticks work n (tick work peers)
