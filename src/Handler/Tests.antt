-- ===== src/Handler/Tests.antt =====
-- Examples for the packet handler.
use node_util.Base.{ℕ, ◌≤◌, ◌≡◌, some, List, [], ◌∷◌, arith, length, count, map}
use node_util.Node.{NodeId, Enode, wrap_nodes}
use node_util.Samples.{sample_net, sample_dist, sample_dist_laws, node_at}
use node_util.Distance.Ideal.{IsSorted}
use node_util.Table.Sample.{ready, ready-IsTable, ready-len}
use node_util.Query.{Event, next_event, answer_event}
use node_util.Awaiter.{Request, tick_event, request_event}
use node_util.Awaiter
use node_util.Handler.{lookup_random}
use node_util.Handler.Lookup.{lookup_random-result}

abbrev rounds : List (List Event)
rounds = (next_event ∷ next_event ∷ answer_event 0 (some ((node_at 700 9 9).enode ∷ [])) ∷ []) ∷ []

lookup_random-result_example :
    (nodes : List Enode) × ((lookup_random sample_net sample_dist ready 905 rounds ≡ some nodes)
      × (IsSorted sample_dist 905 (wrap_nodes nodes)
          × ((length nodes ≤ 16) × ((id : NodeId) → count id (map (λ n. n.id) nodes) ≤ 1))))
lookup_random-result_example =
    lookup_random-result sample_net sample_dist sample_dist_laws ready 905 rounds ready-IsTable
      (omega (arith, ready-len))

abbrev request : ℕ → Request
request at = record { id = 1; expected_kind = 4; ip = 80 ∷ 1 ∷ 2 ∷ 3 ∷ []; expiration = at }

abbrev before : List Awaiter.Event
before = request_event (request 50) ∷ []

abbrev later : List Awaiter.Event
later = tick_event 90 ∷ []
