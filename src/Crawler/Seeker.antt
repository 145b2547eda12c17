-- ===== src/Crawler/Seeker.antt =====
-- crawler/crawler/seeker.go and seekerProc.go: which seen nodes are asked for their record, and which
-- records are passed on; filterNode of crawler.go.
use node_util.Base.{
  ℕ, zero, suc, Bool, false, ◌||◌, List, [], ◌∷◌, Option, none, some, ◌==◌, if◌then◌else◌,
}
use node_util.Base.Int.{ℤ}
use node_util.Node.{NodeId, Enode, Node, wrap_node, set_timestamp, bump}

-- discovery.NodeEvent
pub record NodeEvent : Type 0 where
  pub is_seen : Bool
  pub node : Enode

-- `pushed` lists the nodes that go to the workers, the latest first.
pub record Seeker : Type 0 where
  pub seen : List NodeId
  pub pushed : List Enode

abbrev pub has : NodeId → List NodeId → Bool
has id [] = false
has id (x ∷ xs) = (x == id) || has id xs

-- A turn of eventLoop.
unfoldable pub on_event : Seeker → NodeEvent → Seeker
on_event s e =
    if e.is_seen
    then (if has e.node.id s.seen
        then s
        else record { seen = e.node.id ∷ s.seen; pushed = e.node ∷ s.pushed })
    else s

unfoldable pub event_loop : Seeker → List NodeEvent → Seeker
unfolding on_event
event_loop s [] = s
event_loop s (e ∷ es) = event_loop (on_event s e) es

-- The loop over three attempts; `attempt` is what the i-th call of enrFunc returns. Also the number of
-- calls.
unfoldable pub attempts : (ℕ → Option Enode) → ℕ → ℕ → Option Enode × ℕ
attempts attempt zero i = (none, i)
attempts attempt (suc left) i =
    let more = attempts attempt left (suc i) in
    elim (attempt i) [ none ↦ more | some n ↦ (some n, suc i) ]

pub data SeekResult : Type 0 where
  enr_failed : SeekResult
  not_interested : SeekResult
  found : Node → SeekResult

-- OnData, with `time.Now()` as Unix seconds.
unfoldable pub seek : (ℕ → Option Enode) → (Enode → Bool) → ℤ → SeekResult
unfolding attempts wrap_node set_timestamp bump
seek attempt verify now = elim (attempts attempt 3 0).0 [
  | none ↦ enr_failed
  | some n ↦ if verify n then found (bump (set_timestamp (wrap_node n) now)) else not_interested
]

-- filterNode on the names of the record's fields; `star` is the key "*".
unfoldable pub any_key : ℕ → ℕ → List ℕ → Bool
any_key star record_ [] = false
any_key star record_ (key ∷ keys) = ((key == star) || (record_ == key)) || any_key star record_ keys

unfoldable pub filter_node : ℕ → List ℕ → List ℕ → Bool
unfolding any_key
filter_node star keys [] = false
filter_node star keys (record_ ∷ records) =
    any_key star record_ keys || filter_node star keys records
