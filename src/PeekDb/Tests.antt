-- ===== src/PeekDb/Tests.antt =====
-- Examples for discV4PeekDB.
use node_util.Base.{refl, ◌≡◌, List, [], ◌∷◌}
use node_util.Samples.{node_at}
use node_util.PeekDb.{start_peek, Event, tick_event, result_event, run}
use node_util.PeekDb.Cache.{ids}

abbrev events : List Event
events =
    result_event ((node_at 5 1 0).enode ∷ (node_at 6 1 0).enode ∷ [])
    ∷ tick_event
    ∷ result_event ((node_at 5 1 0).enode ∷ [])
    ∷ tick_event
    ∷ []

cached_once : ids (run start_peek events).cache ≡ 6 ∷ 5 ∷ []
unfolding run
cached_once = refl
