-- ===== src/Crawler/Loop/Tests.antt =====
-- Examples for the crawler's loops.
use node_util.Base.{ℕ, ◌+◌, ◌≡◌, refl, true, List, [], ◌∷◌, some, arith, ◌==◌, map, one_when}
use node_util.Node.{Enode}
use node_util.Samples.{node_at}
use node_util.Crawler.Loop.{
  Crawler, Event, found, ticked, marks, enters, asked, queried, new_crawler, run,
}
use node_util.Crawler.Loop.Changes.{published, fresh_in, in_marking, known}
use node_util.Crawler.Loop.Named.{is_named}
use node_util.Crawler.Loop.Published.{run-published}
use node_util.Crawler.Loop.Fair.{run-visited}

abbrev node_of : ℕ → Enode
node_of id = (node_at id 1 0).enode

-- Two peers; the first names the nodes 7 and 8, the first of them twice, and a tick comes in between.
abbrev events : List (Event ℕ)
events =
    found (node_of 3)
    ∷ found (node_of 4)
    ∷ marks 0 (node_of 7)
    ∷ enters 0
    ∷ marks 0 (node_of 8)
    ∷ ticked 100
    ∷ enters 0
    ∷ marks 0 (node_of 7)
    ∷ queried 1 (some 5) 200
    ∷ asked 0 true 300
    ∷ []

abbrev final : Crawler ℕ
final = run ◌==◌ new_crawler events

first_stats : map (λ st. map (λ n. n.id) st.new_nodes) final.stats ≡ (7 ∷ []) ∷ []
unfolding run new_crawler
first_stats = refl

run-published_example :
    (published 0 8 final.stats + (fresh_in final.store 0 8 + in_marking 0 8 final.marking)
      ≡ one_when (is_named 0 events 0 8))
    × (known final.store 0 8 ≡ one_when (is_named 0 events 0 8))
run-published_example = run-published ◌==◌ events 0 8

abbrev later : List (Event ℕ)
later = ticked 400 ∷ found (node_of 5) ∷ enters 2 ∷ ticked 500 ∷ []

run-visited_example : (run ◌==◌ final later).visited ≡ 0 ∷ 1 ∷ 0 ∷ []
unfolding run new_crawler
run-visited_example = run-visited ◌==◌ later final (omega arith)
