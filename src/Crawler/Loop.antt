-- ===== src/Crawler/Loop.antt =====
-- The two goroutines of Crawl in crawler/crawler/crawler.go over the peers that they share with the
-- workers of crawlerProc.go. Peers are pointers: numbers of places in a store. An event is one step
-- of one of them, where a tick counts as one; the workers' steps are those of OnData on a peer.
pub mod Changes
pub mod Named
pub mod Published
pub mod Fair
mod Tests
use node_util.Base.{
  remove_nth, ℕ, zero, suc, ◌+◌, ◌%◌, ◌^◌, Bool, true, false, not, List, [], ◌∷◌, ◌++◌, Option,
  none, some, if◌then◌else◌, get_elem?, set, length, ltb,
}
use node_util.Node.{NodeId, Enode}
use node_util.Crawler.Peers.{
  Peer, QueryCounter, can_refresh, bump, load, update_info, get_peer_nodes, new_entries, enqueue,
  dequeue,
}

-- Milliseconds.
abbrev pub info_attempt_frequency : ℕ
info_attempt_frequency = 600_000

abbrev pub find_attempt_frequency : ℕ
find_attempt_frequency = 60_000

-- broker.NodeStats. The peer stands for its ENR, nodes for theirs.
pub record NodeStats : Type 0 where
  pub peer : ℕ
  pub queried : ℕ
  pub nodes : ℕ
  pub new_nodes : List Enode

-- `marking` lists the nodes that MarkPeerNode has put in the map of a peer, before it takes the lock
-- for `fresh`. `pushed` are the peers given to the workers' iterator, `announced` the nodes of
-- CreateEnrRecord and PublishNewNodeFound, `stats` the statistics that were published, `visited` the
-- peers that a tick has looked at.
pub record Crawler (Info : Type 0) : Type 0 where
  pub store : List (Peer Info)
  pub marking : List (ℕ × NodeId)
  pub buffer : List ℕ
  pub pushed : List ℕ
  pub announced : List Enode
  pub stats : List NodeStats
  pub visited : List ℕ

unfoldable pub new_crawler : {Info : Type 0} → Crawler Info
new_crawler = record {
  store = [];
  marking = [];
  buffer = [];
  pushed = [];
  announced = [];
  stats = [];
  visited = [];
}

abbrev pub new_query_counter : ℕ → QueryCounter
new_query_counter duration = record {
  duration = duration;
  last_attempt = 0;
  successes = 0;
  failures = 0;
}

abbrev pub total_count : QueryCounter → ℕ
total_count q = (q.failures + q.successes) % 2 ^ 32

module _ {Info : Type 0} where
  abbrev pub new_peer : Peer Info
  new_peer = record {
    info = none;
    peers_amount = 0;
    peers = [];
    info_counter = new_query_counter info_attempt_frequency;
    find_counter = new_query_counter find_attempt_frequency;
    fresh = [];
    hooked = [];
  }

  -- A turn of the loop of Crawl with a node of the seeker.
  unfoldable pub on_found : Crawler Info → Enode → Crawler Info
  unfolding enqueue
  on_found s n = record s {
    store = s.store ++ new_peer ∷ [];
    announced = s.announced ++ n ∷ [];
    buffer = enqueue s.buffer (length s.store);
  }

  -- What is published of the entries that NewEntries gave; the peer `p` is as they left it.
  unfoldable pub stats_of : ℕ → Peer Info → List NodeId → NodeStats
  unfolding get_peer_nodes
  stats_of i p entries = record {
    peer = i;
    queried = (total_count p.find_counter + total_count p.info_counter) % 2 ^ 32;
    nodes = p.peers_amount;
    new_nodes = get_peer_nodes p entries;
  }

  unfoldable pub publish : Crawler Info → ℕ → Peer Info → List NodeId → Crawler Info
  unfolding stats_of
  publish s i p [] = s
  publish s i p (e ∷ es) = record s { stats = s.stats ++ stats_of i p (e ∷ es) ∷ [] }

  -- A tick on a peer.
  unfoldable pub tick_peer : Crawler Info → ℕ → ℕ → Peer Info → Crawler Info
  unfolding can_refresh new_entries publish
  tick_peer s now i p =
      let (counter, due) = can_refresh p.find_counter now in
      let (q, entries) = new_entries (record p { find_counter = counter }) in
      publish
        (record s {
          store = set s.store i q;
          pushed = if due then s.pushed ++ i ∷ [] else s.pushed;
        })
        i q entries

  abbrev pub with_peer : Crawler Info → ℕ → (Peer Info → Crawler Info) → Crawler Info
  with_peer s i f = elim (get_elem? s.store i) [ none ↦ s | some p ↦ f p ]

  abbrev pub put_peer : Crawler Info → ℕ → Peer Info → Crawler Info
  put_peer s i p = record s { store = set s.store i p }

  unfoldable pub on_dequeued : Crawler Info → ℕ → Option (ℕ × List ℕ) → Crawler Info
  unfolding enqueue tick_peer
  on_dequeued s now none = s
  on_dequeued s now (some (i, rest)) =
      let turned = record s { buffer = enqueue rest i; visited = s.visited ++ i ∷ [] } in
      with_peer turned i (tick_peer turned now i)

  unfoldable pub on_ticker : Crawler Info → ℕ → Crawler Info
  unfolding dequeue on_dequeued
  on_ticker s now = on_dequeued s now (dequeue s.buffer)

  -- LoadOrStore of MarkPeerNode.
  unfoldable pub store_node : Crawler Info → ℕ → Enode → Peer Info → Crawler Info
  store_node s i n p = elim (load n.id p.peers) [
    | some old ↦ s
    | none ↦ record s {
      store =
          set s.store i (record p {
            peers = (n.id, n) ∷ p.peers;
            peers_amount = (p.peers_amount + 1) % 2 ^ 32;
          });
      marking = (i, n.id) ∷ s.marking;
    }
  ]

  -- Its append to `fresh`, for the k-th node that waits for the lock.
  unfoldable pub enter : Crawler Info → ℕ → Option (ℕ × NodeId) → Crawler Info
  enter s k none = s
  enter s k (some (i, id)) = with_peer s i λ p. record s {
    store = set s.store i (record p { fresh = p.fresh ++ id ∷ [] });
    marking = remove_nth s.marking k;
  }

  -- What a query of the peer's info did; none for its error. `same` is DeepEqual.
  unfoldable pub informed : (Info → Info → Bool) → Peer Info → ℕ → Option Info → Peer Info
  unfolding update_info bump
  informed same p now none = record p { info_counter = bump p.info_counter true now }
  informed same p now (some info) =
      let (q, updated) = update_info same p info in
      record q { info_counter = bump q.info_counter (not updated) now }

pub data Event (Info : Type 0) : Type 0 where
  found : Enode → Event Info
  ticked : ℕ → Event Info
  -- OnData on a peer: MarkPeerNode on a node in two steps, what AskForRandomNodes and Query gave
  marks : ℕ → Enode → Event Info
  enters : ℕ → Event Info
  asked : ℕ → Bool → ℕ → Event Info
  queried : ℕ → Option Info → ℕ → Event Info

module _ {Info : Type 0} (same : Info → Info → Bool) where
  unfoldable pub turn : Crawler Info → Event Info → Crawler Info
  unfolding on_found on_ticker store_node enter informed bump
  turn s (found n) = on_found s n
  turn s (ticked now) = on_ticker s now
  turn s (marks i n) = with_peer s i (store_node s i n)
  turn s (enters k) = enter s k (get_elem? s.marking k)
  turn s (asked i failed now) =
      with_peer s i λ p. put_peer s i (record p { find_counter = bump p.find_counter failed now })
  turn s (queried i info now) = with_peer s i λ p. put_peer s i (informed same p now info)

  unfoldable pub run : Crawler Info → List (Event Info) → Crawler Info
  unfolding turn
  run s [] = s
  run s (e ∷ es) = run (turn s e) es
