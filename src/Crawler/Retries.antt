-- ===== src/Crawler/Retries.antt =====
-- What crawler/crawler/seeker.go and seekerProc.go guarantee.
use node_util.Base.{
  ℕ, zero, suc, ◌+◌, ◌≤◌, ◌<◌, ◌≡◌, refl, Bool, true, false, ◌&&◌, ◌||◌, inl, inr, Bool-cases,
  Option-cases, List, [], ◌∷◌, map, Option, none, arith, ◌==◌, count, one_when,
}
use node_util.Base.Int.{ℤ, to_uint64}
use node_util.Node.{NodeId, Enode, Node, wrap_node, set_timestamp, bump}
use node_util.Crawler.Seeker.{
  Seeker, NodeEvent, has, on_event, event_loop, attempts, seek, enr_failed, found,
}

-- Whether a node was seen in some event.
unfoldable pub was_seen : NodeId → List NodeEvent → Bool
was_seen id [] = false
was_seen id (e ∷ es) = (e.is_seen && (e.node.id == id)) || was_seen id es

abbrev pub ids : List Enode → List NodeId
ids = map (λ n. n.id)

-- The turns keep the pushed nodes those that the map has.
on_event_pushed :
    (s : Seeker) (e : NodeEvent) (t : NodeId)
    → count t (ids s.pushed) ≡ one_when (has t s.seen)
    → count t (ids (on_event s e).pushed) ≡ one_when (has t (on_event s e).seen)
unfolding on_event
on_event_pushed s e t h = elim (Bool-cases (e.node.id == t)) [
  | inl same ↦ let is : e.node.id ≡ t = ground arith in ground (arith, h, is)
  | inr differs ↦ ground (arith, h, differs)
]

on_event_seen :
    (s : Seeker) (e : NodeEvent) (t : NodeId)
    → has t (on_event s e).seen ≡ (has t s.seen || (e.is_seen && (e.node.id == t)))
unfolding on_event
on_event_seen s e t = elim (Bool-cases (e.node.id == t)) [
  | inl same ↦ let is : e.node.id ≡ t = ground arith in ground (arith, is)
  | inr differs ↦ ground (arith, differs)
]

loop_pushed :
    (es : List NodeEvent) (s : Seeker) (t : NodeId)
    → count t (ids s.pushed) ≡ one_when (has t s.seen)
    → count t (ids (event_loop s es).pushed) ≡ one_when (has t s.seen || was_seen t es)
unfolding event_loop was_seen
loop_pushed [] s t h = ground (arith, h)
loop_pushed (e ∷ es) s t h =
    let rest = loop_pushed es (on_event s e) t (on_event_pushed s e t h) in
    ground (arith, rest, on_event_seen s e t)

-- The event loop of a new seeker hands each node that is seen to its workers exactly once, and no
-- other node.
pub event_loop-once :
    (es : List NodeEvent) (t : NodeId)
    → count t (ids (event_loop (record { seen = []; pushed = [] }) es).pushed)
      ≡ one_when (was_seen t es)
event_loop-once es t = loop_pushed es (record { seen = []; pushed = [] }) t refl

attempts_calls : (attempt : ℕ → Option Enode) (left i : ℕ) → (attempts attempt left i).1 ≤ i + left
unfolding attempts
attempts_calls attempt zero i = omega arith
attempts_calls attempt (suc left) i = ground (arith, attempts_calls attempt left (suc i))

attempts-none :
    (attempt : ℕ → Option Enode) (left i : ℕ)
    → (attempts attempt left i).0 ≡ none
    → (k : ℕ) → i ≤ k
    → k < i + left
    → attempt k ≡ none
unfolding attempts
attempts-none attempt zero i e k lower upper = absurd (omega arith)
attempts-none attempt (suc left) i e k lower upper = elim (Option-cases (attempt i)) [
  | inr (n, got) ↦ absurd (ground arith)
  | inl miss ↦ elim (Bool-cases (i == k)) [
    | inl same ↦ let is : i ≡ k = ground arith in rw⁻¹ is miss
    | inr later ↦ attempts-none attempt left (suc i) (ground arith) k (ground arith) (omega arith)
  ]
]

-- The worker of the seeker asks for a record three times at most; it fails only when all three
-- attempts fail, and a node it passes on has an accepted record, the time of now and one liveness
-- check.
pub seek_lem :
    (attempt : ℕ → Option Enode) (verify : Enode → Bool) (now : ℤ)
    → ((attempts attempt 3 0).1 ≤ 3)
      × ((seek attempt verify now ≡ enr_failed → (k : ℕ) → k < 3 → attempt k ≡ none)
          × ((n : Node)
              → seek attempt verify now ≡ found n
              → (verify n.enode ≡ true) × ((n.added_at ≡ to_uint64 now) × (n.liveness_checks ≡ 1))))
unfolding seek wrap_node set_timestamp bump
seek_lem attempt verify now = (
  omega (arith, attempts_calls attempt 3 0),
  (
    λ e k h. attempts-none attempt 3 0 (ground arith) k (omega arith) (omega arith),
    λ n e. ground arith,
  ),
)
