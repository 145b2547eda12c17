-- ===== src/Query.antt =====
-- crawler/net/discovery/query.go: the lookup that asks ever closer nodes for their neighbours. A
-- round of queryNewNodes starts its requests in order, while their answers come in any order; its
-- channel of slots is a number here, with `closed` and a mark for a send after the close.
pub mod Slots
pub mod Asked
pub mod Ranked
pub mod Depth
mod Tests
use node_util.Base.{
  ◌&&◌, ℕ, zero, suc, ◌+◌, ◌-◌, Bool, true, false, ◌||◌, not, List, [], ◌∷◌, ◌++◌, Option, none,
  some, ltb, ◌==◌, if◌then◌else◌, length, get_elem?,
}
use node_util.Node.{NodeId, Enode, wrap_node}
use node_util.NetUtil.{Distances}
use node_util.Distance.{NodesByDistance, push, enodes}

-- A map whose values carry nothing is the list of its keys.
unfoldable pub has : NodeId → List NodeId → Bool
has id [] = false
has id (x ∷ xs) = (x == id) || has id xs

-- `queried` lists the calls of `query`, the latest first.
pub record Lookup : Type 0 where
  pub asked : List NodeId
  pub seen : List NodeId
  pub buffer : List Enode
  pub result : NodesByDistance
  pub depth : ℕ
  pub wants : ℕ
  pub alpha : ℕ
  pub queried : List NodeId

-- The inner loop of `append`.
unfoldable pub has_node : NodeId → List Enode → Bool
has_node id [] = false
has_node id (x ∷ xs) = (x.id == id) || has_node id xs

-- Returns the buffer and how many nodes are new.
unfoldable pub append : List Enode → List Enode → List Enode × ℕ
unfolding has_node
append buffer [] = (buffer, 0)
append buffer (n ∷ ns) =
    let known = append buffer ns in
    let grown = append (buffer ++ n ∷ []) ns in
    if has_node n.id buffer then known else (grown.0, grown.1 + 1)

module _ (d : Distances) where
  unfoldable pub push_seeds : Lookup → List Enode → Lookup
  push_seeds l [] = l
  push_seeds l (n ∷ ns) =
      push_seeds (record l { result = push d l.result (wrap_node n) l.wants; seen = n.id ∷ l.seen })
        ns

  unfoldable pub new_lookup : List Enode → NodeId → ℕ → ℕ → ℕ → Lookup
  new_lookup seeds target depth wants alpha =
      push_seeds
        (record {
          asked = [];
          seen = [];
          buffer = [];
          result = record { entries = []; target = target };
          depth = depth;
          wants = wants;
          alpha = alpha;
          queried = [];
        })
        seeds

  -- The loop of Run over the buffer.
  unfoldable pub merge : Lookup → List Enode → Lookup
  merge l [] = l
  merge l (n ∷ ns) =
      let known = merge l ns in
      let grown =
        merge (record l { seen = n.id ∷ l.seen; result = push d l.result (wrap_node n) l.wants })
          ns in
      if has n.id l.seen then known else grown

-- A call of queryNewNodes: the nodes still to look at, the free slots, the requests under way, the
-- counter of requests that brought new nodes.
pub record Round : Type 0 where
  pub lookup : Lookup
  pub left : List Enode
  pub slots : ℕ
  pub in_flight : List Enode
  pub finished : ℕ
  pub closed : Bool
  pub cancelled : Bool
  pub panics : Bool

unfoldable pub begin_round : Lookup → Round
begin_round l = record {
  lookup = record l { depth = l.depth - 1 };
  left = enodes l.result;
  slots = l.alpha;
  in_flight = [];
  finished = 0;
  closed = false;
  cancelled = false;
  panics = false;
}

abbrev pub mark_asked : Lookup → Enode → Lookup
mark_asked l n = record l { asked = n.id ∷ l.asked }

-- The goroutine of a request starts by calling `query`.
abbrev pub launch : Round → Enode → List Enode → Round
launch r n rest =
    let l = mark_asked r.lookup n in
    record r {
      lookup = record l { queried = n.id ∷ l.queried };
      left = rest;
      slots = r.slots - 1;
      in_flight = r.in_flight ++ n ∷ [];
    }

-- One turn of the loop. It waits while there is no slot; a closed channel always gives one.
unfoldable pub look_at : Round → List Enode → Round
look_at r [] = r
look_at r (n ∷ rest) =
    if has n.id r.lookup.asked
    then record r { left = rest }
    else (if (r.slots == 0) && not r.closed
        then r
        else (if r.finished == r.lookup.alpha
            then record r { lookup = mark_asked r.lookup n; left = [] }
            else launch r n rest))

unfoldable pub next_node : Round → Round
unfolding look_at
next_node r = look_at r r.left

-- The context is done while the loop waits for a slot.
unfoldable pub give_up : Round → List Enode → Round
give_up r [] = r
give_up r (n ∷ rest) =
    if has n.id r.lookup.asked
    then record r { left = rest }
    else record r { lookup = mark_asked r.lookup n; left = []; cancelled = true }

unfoldable pub cancel : Round → Round
unfolding give_up
cancel r = give_up r r.left

abbrev pub give_back : Round → Round
give_back r = record r { slots = r.slots + 1; panics = r.panics || r.closed }

abbrev pub remove_at : List Enode → ℕ → List Enode
remove_at [] i = []
remove_at (x ∷ xs) zero = xs
remove_at (x ∷ xs) (suc i) = x ∷ remove_at xs i

-- The request at an index is answered, `none` by an error.
unfoldable pub answer : Round → ℕ → Option (List Enode) → Round
unfolding append
answer r i reply = elim (get_elem? r.in_flight i) [
  | none ↦ r
  | some n ↦
      let waiting = record r { in_flight = remove_at r.in_flight i } in
      elim reply [
        | none ↦ give_back waiting
        | some nodes ↦
            let (buffer, added) = append r.lookup.buffer nodes in
            let kept = record waiting { lookup = record (r.lookup) { buffer = buffer } } in
            if ltb 0 added
            then record kept {
              finished = r.finished + 1;
              closed = r.closed || (r.finished + 1 == r.lookup.alpha);
              panics = r.panics || (r.closed && (r.finished + 1 == r.lookup.alpha));
            }
            else give_back kept
      ]
]

pub data Event : Type 0 where
  next_event : Event
  cancel_event : Event
  answer_event : ℕ → Option (List Enode) → Event

unfoldable pub react : Round → Event → Round
unfolding next_node cancel answer
react r next_event = next_node r
react r cancel_event = cancel r
react r (answer_event i reply) = answer r i reply

unfoldable pub play : Round → List Event → Round
unfolding react
play r [] = r
play r (e ∷ es) = play (react r e) es

-- Run, for the events of each round: a round without new nodes, or one too many, is the last.
unfoldable pub run : Distances → Lookup → List (List Event) → Lookup
unfolding begin_round play merge
run d l [] = l
run d l (es ∷ rounds) =
    let r = play (begin_round l) es in
    let slid = record (merge d r.lookup r.lookup.buffer) { buffer = [] } in
    let more = run d slid rounds in
    if l.depth == 0 then l else (if r.cancelled || (r.finished == 0) then r.lookup else more)
