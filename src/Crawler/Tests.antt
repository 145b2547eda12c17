-- ===== src/Crawler/Tests.antt =====
-- Examples for the crawler.
use node_util.Base.{
  ℕ, ◌≡◌, refl, true, false, List, [], ◌∷◌, Option, none, some, count, one_when, ◌==◌,
  if◌then◌else◌,
}
use node_util.Node.{Enode, NodeId}
use node_util.Samples.{node_at}
use node_util.Crawler.Seeker.{NodeEvent, event_loop, attempts}
use node_util.Crawler.Retries.{was_seen, ids, event_loop-once}

abbrev known : NodeId → Enode
known id = (node_at id 1 0).enode

abbrev sightings : List NodeEvent
sightings =
    record { is_seen = true; node = known 3 }
    ∷ record { is_seen = false; node = known 4 }
    ∷ record { is_seen = true; node = known 3 }
    ∷ []

event_loop-once_example :
    count 3 (ids (event_loop (record { seen = []; pushed = [] }) sightings).pushed)
    ≡ one_when (was_seen 3 sightings)
event_loop-once_example = event_loop-once sightings 3

-- The second attempt succeeds.
abbrev second : ℕ → Option Enode
second k = if k == 1 then some (known 3) else none

second_found : attempts second 3 0 ≡ (some (known 3), 2)
unfolding attempts
second_found = refl
