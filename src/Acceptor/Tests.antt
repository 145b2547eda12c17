-- ===== src/Acceptor/Tests.antt =====
-- Examples for the limiter: a threshold of one second and a bound of two packets.
use node_util.Base.{ℕ, ◌≡◌, refl, true, List, [], ◌∷◌, some, arith}
use node_util.Acceptor.{AcceptLimit, is_above, accept_all}
use node_util.Acceptor.Refused.{IsSteady, accept_all-refused}

-- Packets that come a day after one another.
abbrev times : List ℕ
times = 86_400_000_000_000 ∷ 172_800_000_000_000 ∷ []

abbrev start : AcceptLimit
start = record { c = 3; last = 4 }

times-IsSteady : IsSteady 1_000_000_000 4 times
unfolding IsSteady
times-IsSteady = ground arith

start_above : is_above start 2 ≡ true
unfolding is_above
start_above = refl

accept_all-refused_example :
    (w : AcceptLimit) × ((accept_all start 1_000_000_000 2 times ≡ some (w, 0))
      × (is_above w 2 ≡ true))
accept_all-refused_example =
    accept_all-refused times start 1_000_000_000 2 (omega arith) start_above times-IsSteady
